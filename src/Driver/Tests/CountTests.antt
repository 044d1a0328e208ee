-- ===== src/Driver/Tests/CountTests.antt =====
-- A node with one reference, which has no strong count yet.
use cdroid.Driver.Kernel.{ok}
use cdroid.Driver.Buffer.Mmap.{success, Errno}
use cdroid.Driver.Ref.Raising.{binder_inc_ref-IsCounted, raised_ref, Below}
use cdroid.Driver.Ref.{binder_inc_ref, new_ref}
use cdroid.Driver.Ref.Counts.{refers, strong_in, IsCounted}
use cdroid.Driver.Tests.RefTests.{bare, nothing}
use cdroid.Driver.Store.{Store, Node, Ref, put_at}
use cdroid.Prelude.{
  ◌≢◌, if◌then◌else◌, ◌^◌, ◌<◌, count, inr, ◌+◌, inl, arith, ◌==◌, subst, Bool-cases, refl, ◌∷◌, [],
  ◌≡◌, ℕ, true, some, none,
}

abbrev pub listed_node : Node
listed_node = record bare { refs = 201 ∷ [] }

abbrev the_ref : Ref
the_ref = new_ref nothing 7 101 1

abbrev one_ref : Store
one_ref = record nothing {
  node = put_at 101 (some listed_node) (λ a. none);
  ref = put_at 201 (some the_ref) (λ a. none);
}

the_node : (b : ℕ) (n : Node) → one_ref.node b ≡ some n → (b ≡ 101) × (listed_node ≡ n)
the_node b n e = elim (Bool-cases (b == 101)) [
  | inl q ↦ let h : some listed_node ≡ some n = rw q at e in (ground arith, cc)
  | inr q ↦ let h : none ≡ some n = rw q at e in cc
]

one_ref-IsCounted : IsCounted one_ref.node one_ref.ref
one_ref-IsCounted = record {
  counted = λ b n e.
      let (at, it) = the_node b n e in
      subst (λ n. n.internal_strong_refs ≡ strong_in one_ref.ref n.refs) it refl;
  listed = λ b n e a.
      let (at, it) = the_node b n e in
      subst (λ n. count a n.refs ≡ (if refers (one_ref.ref a) b then 1 else 0)) it
        (elim (Bool-cases (a == 201)) [ inl q ↦ rw (q, at) refl | inr q ↦ rw q refl ]);
  alive = λ a r e. elim (Bool-cases (a == 201)) [
    | inl q ↦
        let h : some the_ref ≡ some r = rw q at e in
        let it : the_ref ≡ r = cc in
        subst (λ r. one_ref.node r.node ≢ none) it (λ z. let y : some listed_node ≡ none = z in cc)
    | inr q ↦ let h : none ≡ some r = rw q at e in cc
  ];
}

small : Below one_ref the_ref
small = (
  omega arith,
  λ n e.
      let (at, it) = the_node 101 n e in
      subst (λ n. n.internal_strong_refs + 1 < 2 ^ 32) it (omega arith),
)

binder_inc_ref-IsCounted_example :
    (e : Errno) × (t : Store) × (binder_inc_ref one_ref 201 true (some 900) ≡ ok (e, t))
    × IsCounted t.node t.ref
    × (t.ref 201 ≡ (elim e [ success ↦ some (raised_ref the_ref true) | _ ↦ some the_ref ]))
binder_inc_ref-IsCounted_example =
    binder_inc_ref-IsCounted one_ref 201 the_ref true (some 900) one_ref-IsCounted refl small
