-- ===== src/Driver/Rbtree/Holds.antt =====
-- A tree as the set of its nodes in the order of their keys, and what linking, erasing and a change
-- of keys do to it.
use cdroid.Prelude.{
  refl, All-append_left, All-append_right, ℕ, ◌+◌, ◌-◌, ◌<◌, ◌≤◌, ◌≡◌, ◌≢◌, List, [], ◌∷◌, some,
  none, inl, inr, arith, All, All-count, count, count-erase_self, count-erase_ne, erase, Bool-cases,
  ◌==◌, ==_iff, Option-cases, All-of_count,
}
use cdroid.Driver.Rbtree.{
  leaf, node, node, link_visits, search_visits, true, Bool, Tree, Rb, inorder, search_by, link_by,
  IsSorted,
}
use cdroid.Driver.Rbtree.Search.{
  IsSorted-erase, count-link_by, link_by-IsSorted, search_by_sound, search_by_complete,
}

pub record Holds (key : ℕ → ℕ) (t : Tree) (want : List ℕ) : Type 0 where
  pub nodes : (a : ℕ) → count a (inorder t) ≡ count a want
  pub order : IsSorted key (inorder t)

IsSorted-rekey :
    (key key' : ℕ → ℕ) (xs : List ℕ)
    → All (λ x. key' x ≡ key x) xs
    → IsSorted key xs
    → IsSorted key' xs
IsSorted-rekey key key' [] e h = tt
IsSorted-rekey key key' (x ∷ xs) e h = (below xs e.1 h.0, IsSorted-rekey key key' xs e.1 h.1)
  where
    below :
        (ys : List ℕ)
        → All (λ y. key' y ≡ key y) ys
        → All (λ y. key x ≤ key y) ys
        → All (λ y. key' x ≤ key' y) ys
    below [] f k = tt
    below (y ∷ ys) f k = (omega (arith, e.0, f.0, k.0), below ys f.1 k.1)

module _ (key : ℕ → ℕ) (test : ℕ → Bool) (k : ℕ) where
  search_visits_all :
      (t : Tree) → All (λ x. test x ≡ true) (inorder t) → search_visits key test k t ≡ true
  unfolding search_visits
  search_visits_all leaf h = refl
  search_visits_all (node l x r) h =
      let behind = All-append_right (λ x. test x ≡ true) (inorder l) (x ∷ inorder r) h in
      let left =
        search_visits_all l (All-append_left (λ x. test x ≡ true) (inorder l) (x ∷ inorder r) h) in
      let right = search_visits_all r behind.1 in rw (behind.0, left, right) (ground arith)

  link_visits_all :
      (t : Tree) → All (λ x. test x ≡ true) (inorder t) → link_visits key test k t ≡ true
  unfolding link_visits
  link_visits_all leaf h = refl
  link_visits_all (node l x r) h =
      let behind = All-append_right (λ x. test x ≡ true) (inorder l) (x ∷ inorder r) h in
      let left =
        link_visits_all l (All-append_left (λ x. test x ≡ true) (inorder l) (x ∷ inorder r) h) in
      let right = link_visits_all r behind.1 in rw (behind.0, left, right) (ground arith)

module _ (rb : Rb) (key : ℕ → ℕ) (t : Tree) (want : List ℕ) (h : Holds key t want) where
  -- A new node, by its own key.
  pub Holds-link_by :
      (x : ℕ) (want' : List ℕ)
      → ((a : ℕ) → count a want' ≡ count a (x ∷ []) + count a want)
      → Holds key (rb.insert_color (link_by key (key x) x t)) want'
  Holds-link_by x want' e = record {
    nodes = λ a.
        rw (rb.inorder-insert_color (link_by key (key x) x t))
          (omega (arith, count-link_by key a (key x) x t, h.nodes a, e a));
    order =
        rw (rb.inorder-insert_color (link_by key (key x) x t)) (link_by-IsSorted key x t h.order);
  }

  count-erase : (a x : ℕ) (xs : List ℕ) → count a (erase x xs) ≡ count a xs - count a (x ∷ [])
  count-erase a x xs = elim (Bool-cases (a == x)) [
    | inl same ↦ let e : a ≡ x = (==_iff a x).0 same in rw e (ground (arith, count-erase_self x xs))
    | inr other ↦ ground (arith, count-erase_ne x a xs)
  ]

  -- Without one node.
  pub Holds-erase :
      (x : ℕ) (want' : List ℕ)
      → ((a : ℕ) → count a want ≡ count a (x ∷ []) + count a want')
      → Holds key (rb.rb_erase x t) want'
  Holds-erase x want' e = record {
    nodes = λ a.
        rw (rb.inorder-rb_erase x t) (omega (arith, count-erase a x (inorder t), h.nodes a, e a));
    order = rw (rb.inorder-rb_erase x t) (IsSorted-erase key x (inorder t) h.order);
  }

  -- With other keys, equal on the nodes.
  pub Holds-rekey :
      (key' : ℕ → ℕ) → ((a : ℕ) → 0 < count a want → key' a ≡ key a) → Holds key' t want
  Holds-rekey key' e = record {
    nodes = h.nodes;
    order =
        IsSorted-rekey key key' (inorder t)
          (All-of_count (λ a. key' a ≡ key a) (inorder t) (λ a c. e a (omega (arith, h.nodes a))))
          h.order;
  }

  -- The same tree for another list of the same nodes.
  pub Holds-same : (want' : List ℕ) → ((a : ℕ) → count a want' ≡ count a want) → Holds key t want'
  Holds-same want' e = record { nodes = λ a. omega (arith, h.nodes a, e a); order = h.order }

  -- The walk finds a node with the key, or there is none.
  pub Holds-found : (k x : ℕ) → search_by key k t ≡ some x → (key x ≡ k) × (0 < count x want)
  Holds-found k x e = let f = search_by_sound key k t x e in (f.0, omega (arith, f.1, h.nodes x))

  pub Holds-missed : (k : ℕ) → search_by key k t ≡ none → (a : ℕ) → 0 < count a want → key a ≢ k
  Holds-missed k e a c =
      All-count (λ x. key x ≢ k) a (inorder t) (search_by_complete key k t h.order e)
        (omega (arith, h.nodes a))

  pub Holds-absent : (k : ℕ) → ((a : ℕ) → 0 < count a want → key a ≢ k) → search_by key k t ≡ none
  Holds-absent k n = elim (Option-cases (search_by key k t)) [
    | inl e ↦ e
    | inr (x, e) ↦ let f = Holds-found k x e in absurd (n x f.1 f.0)
  ]

  -- What every node of the set passes, the nodes on the way of a walk pass.
  module _ (test : ℕ → Bool) (passed : (a : ℕ) → 0 < count a want → test a ≡ true) (k : ℕ) where
    all_pass : All (λ x. test x ≡ true) (inorder t)
    all_pass =
        All-of_count (λ x. test x ≡ true) (inorder t)
          (λ a c. passed a (omega (arith, c, h.nodes a)))

    pub Holds-search_visits : search_visits key test k t ≡ true
    Holds-search_visits = search_visits_all key test k t all_pass

    pub Holds-link_visits : link_visits key test k t ≡ true
    Holds-link_visits = link_visits_all key test k t all_pass
