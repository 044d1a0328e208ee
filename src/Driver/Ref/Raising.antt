-- ===== src/Driver/Ref/Raising.antt =====
-- binder_inc_ref keeps the counts of the references and the nodes in step.
use cdroid.Driver.Ref.{put_ref, binder_inc_ref}
use cdroid.Driver.Kernel.{ok}
use cdroid.Driver.Buffer.Mmap.{einval, success, Errno}
use cdroid.Driver.Node.{unannounced, binder_inc_node, inc_weak, inc_strong}
use cdroid.Driver.Store.{inc32, Ref, list_del_init, list_add_tail, put_at, put_node, Store, Node}
use cdroid.Prelude.{
  subst, subst₂, ◌∙◌, ==_self, ap, sym, ==_iff, arith, ◌⊎◌, if◌then◌else◌, Bool, erase,
  Option-cases, inr, true, false, inl, ◌||◌, ◌==◌, Bool-cases, ℕ, ◌+◌, ◌<◌, ◌^◌, ◌≡◌, refl, none,
  some, Option,
}
use cdroid.Driver.Ref.Counts.{strong_bit, IsCounted, retally}

module _ (s : Store) (b : ℕ) (m : Node) where
  -- The node at `b` is now as `m`, but for the list it is in.
  abbrev Raised : Store → Type 0
  Raised t =
      (n' : Node) × (t.ref ≡ s.ref)
      × ((c : ℕ) → t.node c ≡ put_at b (some n') s.node c)
      × (n'.refs ≡ m.refs)
      × (n'.internal_strong_refs ≡ m.internal_strong_refs)

  put_node-Raised : Raised (put_node s b m)
  put_node-Raised = (m, refl, λ c. refl, refl, refl)

  -- The stores on the way differ at `b` only.
  list_add_tail-Raised :
      (u : Store) (l : ℕ)
      → u.ref ≡ s.ref
      → ((c : ℕ) → (c == b) ≡ false → u.node c ≡ s.node c)
      → Raised (list_add_tail u b m l)
  list_add_tail-Raised u l refs else_same = (record m { entry = some l }, refs, nodes, refl, refl)
    where
      nodes :
          (c : ℕ)
          → put_at b (some (record m { entry = some l })) u.node c
            ≡ put_at b (some (record m { entry = some l })) s.node c
      nodes c = elim (Bool-cases (c == b)) [ inl q ↦ rw q refl | inr q ↦ rw q (else_same c q) ]

  put_same : (c : ℕ) → (c == b) ≡ false → (put_node s b m).node c ≡ s.node c
  put_same c q = rw q refl

  abbrev unqueued : Option ℕ → Store
  unqueued o = elim o [
    | none ↦ put_node s b m
    | some l ↦
        put_node (record (put_node s b m) { queue = put_at l (erase b (s.queue l)) s.queue }) b
          (record m { entry = none })
  ]

  unqueued_ref : (o : Option ℕ) → (unqueued o).ref ≡ s.ref
  unqueued_ref none = refl
  unqueued_ref (some l) = refl

  unqueued_same : (o : Option ℕ) (c : ℕ) → (c == b) ≡ false → (unqueued o).node c ≡ s.node c
  unqueued_same none c q = rw q refl
  unqueued_same (some l) c q = rw q refl

  requeued-Raised : (l : ℕ) → Raised (list_add_tail (list_del_init (put_node s b m) b m) b m l)
  requeued-Raised l =
      list_add_tail-Raised (unqueued m.entry) l (unqueued_ref m.entry) (unqueued_same m.entry)

  inc_strong-Raised :
      (target : Option ℕ) → (t : Store) × (inc_strong s b m target ≡ ok (success, t)) × Raised t
  inc_strong-Raised none = (put_node s b m, refl, put_node-Raised)
  inc_strong-Raised (some l) = elim (Bool-cases m.has_strong_ref) [
    | inl h ↦ (put_node s b m, rw h refl, put_node-Raised)
    | inr h ↦
        (list_add_tail (list_del_init (put_node s b m) b m) b m l, rw h refl, requeued-Raised l)
  ]

  inc_weak-Raised :
      (target : Option ℕ)
      → ((t : Store) × (inc_weak s b m target ≡ ok (success, t)) × Raised t)
        ⊎ (inc_weak s b m target ≡ ok (einval, put_node s b m))
  inc_weak-Raised target =
      elim (Bool-cases (m.has_weak_ref || elim m.entry [ none ↦ false | some _ ↦ true ])) [
        | inl h ↦ inl (put_node s b m, rw h refl, put_node-Raised)
        | inr h ↦ elim (Option-cases target) [
          | inl e ↦ inr (rw (h, e) refl)
          | inr (l, e) ↦ inl (
            list_add_tail (put_node s b m) b m l,
            rw (h, e) refl,
            list_add_tail-Raised (put_node s b m) l refl put_same,
          )
        ]
      ]

put_self :
    (s : Store) (b : ℕ) (n : Node)
    → s.node b ≡ some n
    → (c : ℕ) → put_at b (some n) s.node c ≡ s.node c
put_self s b n at c = elim (Bool-cases (c == b)) [
  | inl q ↦ let same : c ≡ b = (==_iff c b).0 q in rw q (sym (ap s.node same ∙ at))
  | inr q ↦ rw q refl
]

-- What binder_inc_node, called for a reference, does to the counts of the node.
inc_node-Raised :
    (s : Store) (b : ℕ) (n : Node) (strong : Bool) (target : Option ℕ)
    → s.node b ≡ some n
    → n.internal_strong_refs + 1 < 2 ^ 32
    → ((t : Store) × (m : Node) × (binder_inc_node s b strong true target ≡ ok (success, t))
        × Raised s b m t
        × (m.refs ≡ n.refs)
        × (m.internal_strong_refs ≡ n.internal_strong_refs + (if strong then 1 else 0)))
      ⊎ ((t : Store) × (binder_inc_node s b strong true target ≡ ok (einval, t))
          × (t.ref ≡ s.ref)
          × ((c : ℕ) → t.node c ≡ s.node c))
unfolding binder_inc_node
inc_node-Raised s b n true target at small = elim (Bool-cases (unannounced s b n target)) [
  | inl h ↦ inr (s, rw (binder_inc_node, at, h) refl, refl, λ c. refl)
  | inr h ↦
      let m = record n { internal_strong_refs = inc32 n.internal_strong_refs } in
      let (t, e, raised) = inc_strong-Raised s b m target in
      inl (t, m, rw (binder_inc_node, at, h) e, raised, refl, omega (arith, small))
]
inc_node-Raised s b n false target at small = elim (inc_weak-Raised s b n target) [
  | inl (t, done, raised) ↦ inl (t, n, rw (binder_inc_node, at) done, raised, refl, omega arith)
  | inr refused ↦ inr (put_node s b n, rw (binder_inc_node, at) refused, refl, put_self s b n at)
]

-- What holds of a reference before an increment: no count is at its maximum.
abbrev pub Below : Store → Ref → Type 0
Below s r =
    (r.strong + 1 < 2 ^ 32)
    × ((n : Node) → s.node r.node ≡ some n → n.internal_strong_refs + 1 < 2 ^ 32)

abbrev pub raised_ref : Ref → Bool → Ref
raised_ref r strong =
    if strong then record r { strong = inc32 r.strong } else record r { weak = inc32 r.weak }

-- Only the first strong count changes what the reference holds of its node.
bit_first :
    (r : Ref) (strong : Bool)
    → r.strong + 1 < 2 ^ 32
    → ((if strong then r.strong else r.weak) == 0) ≡ true
    → strong_bit (some (raised_ref r strong)) ≡ strong_bit (some r) + (if strong then 1 else 0)
bit_first r true small h = ground (arith, small, h)
bit_first r false small h = omega arith

bit_later :
    (r : Ref) (strong : Bool)
    → r.strong + 1 < 2 ^ 32
    → ((if strong then r.strong else r.weak) == 0) ≡ false
    → strong_bit (some (raised_ref r strong)) ≡ strong_bit (some r)
bit_later r true small h = ground (arith, small, h)
bit_later r false small h = refl

raised-node : (r : Ref) (strong : Bool) → (raised_ref r strong).node ≡ r.node
raised-node r true = refl
raised-node r false = refl

module _ (s : Store) (a : ℕ) (r : Ref) (strong : Bool) (target : Option ℕ)
    (v : IsCounted s.node s.ref) (here : s.ref a ≡ some r) (below : Below s r) where
  -- binder_inc_ref, on a live reference, where the list of each node has exactly its references
  -- and its internal strong count is the number of those with a strong count, and no count at hand
  -- is at its maximum, always returns and reaches no BUG and no freed object. The counts are in
  -- step again, whether it succeeds or refuses, and the reference has one count more if it
  -- succeeds and is as it was if it refuses.
  pub binder_inc_ref-IsCounted :
      (e : Errno) × (t : Store) × (binder_inc_ref s a strong target ≡ ok (e, t))
      × IsCounted t.node t.ref
      × (t.ref a ≡ (elim e [ success ↦ some (raised_ref r strong) | _ ↦ some r ]))
  unfolding binder_inc_ref
  binder_inc_ref-IsCounted = elim (Option-cases (s.node r.node)) [
    | inl gone ↦ absurd (v.alive a r here gone)
    | inr (n, at) ↦ elim (Bool-cases ((if strong then r.strong else r.weak) == 0)) [
      | inr later ↦ (
        success,
        put_ref s a (raised_ref r strong),
        rw (binder_inc_ref, here, later) refl,
        retally s.node s.ref v a r n here at s.node n (raised_ref r strong)
            (λ c. sym (put_self s r.node n at c)) refl (raised-node r strong)
            (omega (arith, bit_later r strong below.0 later)),
        rw (==_self a) refl,
      )
      | inl first ↦ elim (inc_node-Raised s r.node n strong target at (below.1 n at)) [
        | inr (t, refused, refs, nodes) ↦ (
          einval,
          t,
          rw (binder_inc_ref, here, first, refused) refl,
          subst₂ IsCounted (λ i c. sym (nodes c) i) (sym refs) v,
          ap (λ f. f a) refs ∙ here,
        )
        | inl (t, m, done, (n', refs, nodes, lists, counts), same, count) ↦ (
          success,
          put_ref t a (raised_ref r strong),
          rw (binder_inc_ref, here, first, done) refl,
          subst (λ f. IsCounted t.node (put_at a (some (raised_ref r strong)) f)) (sym refs)
              (retally s.node s.ref v a r n here at t.node n' (raised_ref r strong) nodes
                (lists ∙ same) (raised-node r strong)
                (omega (arith, counts, count, bit_first r strong below.0 first))),
          rw (==_self a) refl,
        )
      ]
    ]
  ]
