-- ===== src/Driver/Buffer/Fit.antt =====
-- The walk of binder_alloc_buf over the free buffers finds a smallest one that is large enough.
use cdroid.Driver.Rbtree.{Tree, leaf, node, inorder, IsSorted}
use cdroid.Driver.Rbtree.Search.{IsSorted-append_left, IsSorted-append_right, IsSorted-middle}
use cdroid.Driver.Buffer.Alloc.{best_fit}
use cdroid.Prelude.{
  ℕ, ◌≤◌, ◌<◌, ◌≡◌, ◌⊎◌, ◌≢◌, All-of_count, inl, inr, Bool, false, ◌∷◌, Option, none, some, arith,
  ltb, leb, All, All-append, All-append_right, All-mono, count, count-append, Bool-cases, refl,
  All-count,
}

module _ (size_of : ℕ → ℕ) (size : ℕ) where
  -- The result is the best so far, or a node of the tree that is large enough, exactly so if marked.
  pub best_fit_from :
      (t : Tree) (best : Option (ℕ × Bool)) (a : ℕ) (exact : Bool)
      → best_fit size_of size best t ≡ some (a, exact)
      → (best ≡ some (a, exact))
        ⊎ ((0 < count a (inorder t)) × (size ≤ size_of a) × (exact ≡ leb (size_of a) size))
  unfolding best_fit
  best_fit_from leaf best a exact h = inl h
  best_fit_from (node l x r) best a exact h = ground (
    arith,
    count-append a (inorder l) (x ∷ inorder r),
    best_fit_from l (some (x, false)) a exact,
    best_fit_from r best a exact,
  )

  best_fit-some :
      (t : Tree) (b : ℕ × Bool) (r : Option (ℕ × Bool))
      → best_fit size_of size (some b) t ≡ r
      → r ≢ none
  unfolding best_fit
  best_fit-some leaf b r e = cc
  best_fit-some (node l x r) b r' e =
      ground (arith, best_fit-some l (x, false) r', best_fit-some r b r')

  -- Where the walk finds nothing, every node is too small.
  pub best_fit-none :
      (t : Tree) (best : Option (ℕ × Bool))
      → IsSorted size_of (inorder t)
      → best_fit size_of size best t ≡ none
      → All (λ y. size_of y < size) (inorder t)
  unfolding best_fit
  best_fit-none leaf best h e = tt
  best_fit-none (node l x r) best h e = elim (Bool-cases (ltb size (size_of x))) [
    | inl less ↦ absurd (best_fit-some l (x, false) none (ground arith) refl)
    | inr more ↦
        let right = IsSorted-append_right size_of (inorder l) (x ∷ inorder r) h in
        let below = IsSorted-middle size_of (inorder l) (inorder r) x h in
        All-append (λ y. size_of y < size) (inorder l) (x ∷ inorder r)
          (All-mono (λ y. size_of y ≤ size_of x) (λ y. size_of y < size) (inorder l)
            (λ y k. ground arith) below)
          (ground arith, best_fit-none r best right.1 (ground arith))
  ]

  least_at_left :
      (l : Tree) (x a : ℕ) (exact : Bool)
      → All (λ y. size_of y ≤ size_of x) (inorder l)
      → best_fit size_of size (some (x, false)) l ≡ some (a, exact)
      → size_of a ≤ size_of x
  least_at_left l x a exact below e = elim (best_fit_from l (some (x, false)) a exact e) [
    | inl s ↦ ground arith
    | inr f ↦ All-count (λ y. size_of y ≤ size_of x) a (inorder l) below f.0
  ]

  -- What is found is no larger than any other node that is large enough.
  pub best_fit_least :
      (t : Tree) (best : Option (ℕ × Bool)) (a : ℕ) (exact : Bool)
      → IsSorted size_of (inorder t)
      → ((b : ℕ) (e : Bool) → best ≡ some (b, e) → All (λ y. size_of y ≤ size_of b) (inorder t))
      → best_fit size_of size best t ≡ some (a, exact)
      → All (λ y. size ≤ size_of y → size_of a ≤ size_of y) (inorder t)
  unfolding best_fit
  best_fit_least leaf best a exact h up e = tt
  best_fit_least (node l x r) best a exact h up e =
      let left = IsSorted-append_left size_of (inorder l) (x ∷ inorder r) h in
      let right = IsSorted-append_right size_of (inorder l) (x ∷ inorder r) h in
      let below = IsSorted-middle size_of (inorder l) (inorder r) x h in
      let P : ℕ → Type 0 = λ y. size ≤ size_of y → size_of a ≤ size_of y in
      elim (Bool-cases (ltb size (size_of x))) [
        | inl less ↦
            let e' : best_fit size_of size (some (x, false)) l ≡ some (a, exact) = ground arith in
            let bound = least_at_left l x a exact below e' in
            All-append P (inorder l) (x ∷ inorder r)
              (best_fit_least l (some (x, false)) a exact left
                (λ b f s. let same : x ≡ b = ground arith in rw (← same) below) e')
              (
                λ s. bound,
                All-mono (λ y. size_of x ≤ size_of y) P (inorder r) (λ y k s. omega arith) right.0,
              )
        | inr more ↦ elim (Bool-cases (ltb (size_of x) size)) [
          | inl small ↦
              All-append P (inorder l) (x ∷ inorder r)
                (All-mono (λ y. size_of y ≤ size_of x) P (inorder l) (λ y k s. ground arith) below)
                (
                  λ s. ground arith,
                  best_fit_least r best a exact right.1
                      (λ b f s.
                        (All-append_right (λ y. size_of y ≤ size_of b) (inorder l) (x ∷ inorder r)
                          (up b f s)).1)
                      (ground arith),
                )
          | inr hit ↦
              let e' : x ≡ a = ground arith in
              All-of_count P (inorder (node l x r)) (λ y c s. ground arith)
        ]
      ]
