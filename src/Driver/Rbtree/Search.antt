-- ===== src/Driver/Rbtree/Search.antt =====
-- What the walks over a tree in order find and keep.
use cdroid.Prelude.{
  ℕ, ◌+◌, ◌<◌, ◌≤◌, ◌≡◌, ◌≢◌, List, [], ◌∷◌, ◌++◌, none, some, inl, inr, arith, ltb, All,
  All-append, All-append_left, All-append_right, All-mono, count, count-append, erase, All-erase,
  Bool-cases, ◌==◌,
}
use cdroid.Driver.Rbtree.{Tree, leaf, node, inorder, search_by, link_by, IsSorted}

module _ (key : ℕ → ℕ) where
  pub IsSorted-append_left : (xs ys : List ℕ) → IsSorted key (xs ++ ys) → IsSorted key xs
  IsSorted-append_left [] ys h = tt
  IsSorted-append_left (x ∷ xs) ys h =
      (All-append_left (λ y. key x ≤ key y) xs ys h.0, IsSorted-append_left xs ys h.1)

  pub IsSorted-append_right : (xs ys : List ℕ) → IsSorted key (xs ++ ys) → IsSorted key ys
  IsSorted-append_right [] ys h = h
  IsSorted-append_right (x ∷ xs) ys h = IsSorted-append_right xs ys h.1

  pub IsSorted-middle :
      (xs ys : List ℕ) (x : ℕ) → IsSorted key (xs ++ x ∷ ys) → All (λ y. key y ≤ key x) xs
  IsSorted-middle [] ys x h = tt
  IsSorted-middle (z ∷ xs) ys x h =
      ((All-append_right (λ y. key z ≤ key y) xs (x ∷ ys) h.0).0, IsSorted-middle xs ys x h.1)

  pub IsSorted-append :
      (xs ys : List ℕ) (x : ℕ)
      → IsSorted key xs
      → IsSorted key (x ∷ ys)
      → All (λ y. key y ≤ key x) xs
      → IsSorted key (xs ++ x ∷ ys)
  IsSorted-append [] ys x h k a = k
  IsSorted-append (z ∷ xs) ys x h k a = (
    All-append (λ y. key z ≤ key y) xs (x ∷ ys) h.0
        (
          a.0,
          All-mono (λ y. key x ≤ key y) (λ y. key z ≤ key y) ys (λ y p. omega (arith, a.0)) k.0,
        ),
    IsSorted-append xs ys x h.1 k a.1,
  )

  pub IsSorted-erase : (a : ℕ) (xs : List ℕ) → IsSorted key xs → IsSorted key (erase a xs)
  IsSorted-erase a [] h = tt
  IsSorted-erase a (x ∷ xs) h = elim (Bool-cases (a == x)) [
    | inl same ↦ rw same h.1
    | inr other ↦ rw other (All-erase (λ y. key x ≤ key y) a xs h.0, IsSorted-erase a xs h.1)
  ]

  -- A new node is the only change.
  pub count-link_by :
      (a k x : ℕ) (t : Tree)
      → count a (inorder (link_by key k x t)) ≡ count a (x ∷ []) + count a (inorder t)
  unfolding link_by
  count-link_by a k x leaf = omega arith
  count-link_by a k x (node l y r) = elim (Bool-cases (ltb k (key y))) [
    | inl less ↦ rw less (
        omega (
          arith,
          count-append a (inorder (link_by key k x l)) (y ∷ inorder r),
          count-append a (inorder l) (y ∷ inorder r),
          count-link_by a k x l,
        ))
    | inr more ↦ rw more (
        omega (
          arith,
          count-append a (inorder l) (y ∷ inorder (link_by key k x r)),
          count-append a (inorder l) (y ∷ inorder r),
          count-link_by a k x r,
        ))
  ]

  All-link_by :
      (P : ℕ → Type 0) (k x : ℕ) (t : Tree)
      → P x
      → All P (inorder t)
      → All P (inorder (link_by key k x t))
  unfolding link_by
  All-link_by P k x leaf p h = (p, tt)
  All-link_by P k x (node l y r) p h =
      let left = All-append_left P (inorder l) (y ∷ inorder r) h in
      let right = All-append_right P (inorder l) (y ∷ inorder r) h in
      elim (Bool-cases (ltb k (key y))) [
        | inl less ↦ rw less (All-append P _ _ (All-link_by P k x l p left) right)
        | inr more ↦
            rw more (All-append P (inorder l) _ left (right.0, All-link_by P k x r p right.1))
      ]

  -- Linking a node by its own key keeps the order.
  pub link_by-IsSorted :
      (x : ℕ) (t : Tree)
      → IsSorted key (inorder t)
      → IsSorted key (inorder (link_by key (key x) x t))
  unfolding link_by
  link_by-IsSorted x leaf h = (tt, tt)
  link_by-IsSorted x (node l y r) h =
      let left = IsSorted-append_left (inorder l) (y ∷ inorder r) h in
      let right = IsSorted-append_right (inorder l) (y ∷ inorder r) h in
      let below = IsSorted-middle (inorder l) (inorder r) y h in
      elim (Bool-cases (ltb (key x) (key y))) [
        | inl less ↦ rw less (
            IsSorted-append (inorder (link_by key (key x) x l)) (inorder r) y
              (link_by-IsSorted x l left) right
              (All-link_by (λ z. key z ≤ key y) (key x) x l (ground arith) below))
        | inr more ↦ rw more (
            IsSorted-append (inorder l) (inorder (link_by key (key x) x r)) y left
              (
                All-link_by (λ z. key y ≤ key z) (key x) x r (ground arith) right.0,
                link_by-IsSorted x r right.1,
              )
              below)
      ]

  -- What the walk finds is in the tree and has the key.
  pub search_by_sound :
      (k : ℕ) (t : Tree) (x : ℕ)
      → search_by key k t ≡ some x
      → (key x ≡ k) × (0 < count x (inorder t))
  unfolding search_by
  search_by_sound k leaf x h = cc
  search_by_sound k (node l y r) x h = ground (
    arith,
    count-append x (inorder l) (y ∷ inorder r),
    search_by_sound k l x,
    search_by_sound k r x,
  )

  -- In a tree in order the walk misses a key only where no node has it.
  pub search_by_complete :
      (k : ℕ) (t : Tree)
      → IsSorted key (inorder t)
      → search_by key k t ≡ none
      → All (λ x. key x ≢ k) (inorder t)
  unfolding search_by
  search_by_complete k leaf h e = tt
  search_by_complete k (node l y r) h e =
      let left = IsSorted-append_left (inorder l) (y ∷ inorder r) h in
      let right = IsSorted-append_right (inorder l) (y ∷ inorder r) h in
      let below = IsSorted-middle (inorder l) (inorder r) y h in
      elim (Bool-cases (ltb k (key y))) [
        | inl less ↦
            All-append (λ x. key x ≢ k) (inorder l) (y ∷ inorder r)
              (search_by_complete k l left (ground arith))
              (
                λ e'. ground arith,
                All-mono (λ z. key y ≤ key z) (λ z. key z ≢ k) (inorder r) (λ z p q. ground arith)
                    right.0,
              )
        | inr more ↦
            All-append (λ x. key x ≢ k) (inorder l) (y ∷ inorder r)
              (All-mono (λ z. key z ≤ key y) (λ z. key z ≢ k) (inorder l) (λ z p q. ground arith)
                below)
              (λ e'. ground arith, search_by_complete k r right.1 (ground arith))
      ]
