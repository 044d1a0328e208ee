-- ===== src/Driver/Ref/Desc.antt =====
-- The descriptor that a new reference gets.
use cdroid.Prelude.{
  All-count, All-of_count, ◌%◌, inr, inl, Bool-cases, arith, ◌≡◌, count, ◌^◌, ◌<◌, ◌+◌, [], ◌∷◌,
  ◌≤◌, ◌≢◌, All, All-mono,
}
use cdroid.Driver.Rbtree.{IsSorted}
use cdroid.Driver.Ref.{ltb, List, ℕ, free_desc}

-- On a walk in order, the result is the least number from `d` on that is no descriptor.
pub record IsLeast (desc : ℕ → ℕ) (d : ℕ) (xs : List ℕ) (e : ℕ) : Type 0 where
  pub from : d ≤ e
  pub unused : All (λ y. desc y ≢ e) xs
  pub least : (c : ℕ) → d ≤ c → c < e → (x : ℕ) × (0 < count x xs) × (desc x ≡ c)

module _ (desc : ℕ → ℕ) where
  pub free_desc-IsLeast :
      (d : ℕ) (xs : List ℕ)
      → IsSorted desc xs
      → All (λ y. desc y + 1 < 2 ^ 32) xs
      → All (λ y. d ≤ desc y + 1) xs
      → IsLeast desc d xs (free_desc desc d xs)
  unfolding free_desc
  free_desc-IsLeast d [] s small above = record {
    from = omega arith;
    unused = tt;
    least = λ c h k. absurd (omega arith);
  }
  free_desc-IsLeast d (x ∷ xs) s small above = elim (Bool-cases (ltb d (desc x))) [
    | inl gap ↦ rw gap (record {
      from = omega arith;
      unused = (
        λ q. ground arith,
        All-mono (λ y. desc x ≤ desc y) (λ y. desc y ≢ d) xs (λ y l q. ground arith) s.0,
      );
      least = λ c h k. absurd (omega arith);
    })
    | inr taken ↦
        let next : (desc x + 1) % 2 ^ 32 ≡ desc x + 1 = omega (arith, small.0) in
        let rest = free_desc-IsLeast (desc x + 1) xs s.1 small.1 (
          All-mono (λ y. desc x ≤ desc y) (λ y. desc x + 1 ≤ desc y + 1) xs (λ y l. omega arith)
            s.0) in
        let low : desc x ≤ d = ground arith in
        rw (taken, next)
          (record {
            from = omega (arith, above.0, rest.from);
            unused = (λ q. omega (arith, rest.from), rest.unused);
            least = λ c h k. elim (Bool-cases (ltb c (desc x + 1))) [
              | inl here ↦ (x, ground arith, ground (arith, above.0))
              | inr later ↦
                  let (y, there, same) = rest.least c (ground arith) k in
                  (y, ground (arith, there), same)
            ];
          })
  ]

-- The list matters as a set.
pub IsLeast-same :
    (desc : ℕ → ℕ) (d e : ℕ) (xs ys : List ℕ)
    → ((a : ℕ) → count a xs ≡ count a ys)
    → IsLeast desc d xs e
    → IsLeast desc d ys e
IsLeast-same desc d e xs ys same h = record {
  from = h.from;
  unused =
      All-of_count (λ y. desc y ≢ e) ys
        (λ a c. All-count (λ y. desc y ≢ e) a xs h.unused (omega (arith, same a)));
  least = λ c l k. let (x, there, at) = h.least c l k in (x, omega (arith, same x), at);
}
