-- ===== src/Liblog/LogBuffer/Bytes.antt =====
-- The loop of android_log_processLogBuffer of src/lib/liblog/logprint.c, and the bytes it runs over.
use cdroid.Liblog.LogBuffer.{false, Option, scan}
use cdroid.Prelude.{
  ==_self, Bool-cases, arith, All, ℕ, List, none, some, inl, inr, refl, ◌++◌, ◌∷◌, [], ◌==◌,
  if◌then◌else◌, ap, ◌∙◌, zero, suc, ◌+◌, ◌-◌, length, ◌<◌, ◌≤◌, ◌≡◌,
}

-- The bytes from `a` on.
abbrev pub Holds : (ℕ → ℕ) → ℕ → List ℕ → Type 0
Holds msg a [] = Unit
Holds msg a (x ∷ xs) = (msg a ≡ x) × Holds msg (a + 1) xs

abbrev pub NoNul : List ℕ → Type 0
NoNul = All (λ c. (c == 0) ≡ false)

-- The first NUL among the n bytes from `i` on.
abbrev pub first_nul : (ℕ → ℕ) → ℕ → ℕ → Option ℕ
first_nul msg zero i = none
first_nul msg (suc n) i = let rest = first_nul msg n (i + 1) in if msg i == 0 then some i else rest

scan_started : (msg : ℕ → ℕ) (n i s : ℕ) → scan msg n i (some s) ≡ (some s, first_nul msg n i)
unfolding scan
scan_started msg zero i s = refl
scan_started msg (suc n) i s = elim (Bool-cases (msg i == 0)) [
  | inl y ↦ rw y refl
  | inr o ↦ rw o (scan_started msg n (i + 1) s)
]

-- Behind the first NUL starts the message, which ends at the second.
abbrev pub ends_behind : (ℕ → ℕ) → ℕ → Option ℕ → Option ℕ × Option ℕ
ends_behind msg stop none = (none, none)
ends_behind msg stop (some k) = (some (k + 1), first_nul msg (stop - (k + 1)) (k + 1))

pub scan_fresh :
    (msg : ℕ → ℕ) (n i stop : ℕ)
    → stop ≡ i + n
    → scan msg n i none ≡ ends_behind msg stop (first_nul msg n i)
unfolding scan
scan_fresh msg zero i stop e = refl
scan_fresh msg (suc n) i stop e = elim (Bool-cases (msg i == 0)) [
  | inl y ↦
      let left : stop - (i + 1) ≡ n = omega arith in
      rw (y, left, scan_started msg n (i + 1) (i + 1)) refl
  | inr o ↦ rw (o, scan_fresh msg n (i + 1) stop (omega arith)) refl
]

pub first_nul-some :
    (msg : ℕ → ℕ) (n i k : ℕ) → first_nul msg n i ≡ some k → (i ≤ k) × (k < i + n) × (msg k ≡ 0)
first_nul-some msg zero i k e = absurd (ground arith)
first_nul-some msg (suc n) i k e = elim (Bool-cases (msg i == 0)) [
  | inl y ↦ ground arith
  | inr o ↦ ground (arith, first_nul-some msg n (i + 1) k (rw o at e))
]

pub first_nul-Holds :
    (msg : ℕ → ℕ) (xs ys : List ℕ) (n i : ℕ)
    → Holds msg i (xs ++ 0 ∷ ys)
    → NoNul xs
    → length xs < n
    → first_nul msg n i ≡ some (i + length xs)
first_nul-Holds msg xs ys zero i h k l = absurd (omega arith)
first_nul-Holds msg [] ys (suc n) i h k l = ground arith
first_nul-Holds msg (x ∷ xs) ys (suc n) i h k l =
    rw (h.0, k.0)
      (first_nul-Holds msg xs ys n (i + 1) h.1 k.1 (omega arith) ∙ ap some (omega arith))

pub first_nul_absent :
    (msg : ℕ → ℕ) (xs : List ℕ) (i : ℕ)
    → Holds msg i xs
    → NoNul xs
    → first_nul msg (length xs) i ≡ none
first_nul_absent msg [] i h k = refl
first_nul_absent msg (x ∷ xs) i h k = rw (h.0, k.0) (first_nul_absent msg xs (i + 1) h.1 k.1)

pub Holds-drop :
    (msg : ℕ → ℕ) (xs ys : List ℕ) (a b : ℕ)
    → b ≡ a + length xs
    → Holds msg a (xs ++ ys)
    → Holds msg b ys
Holds-drop msg [] ys a b e h = let same : a ≡ b = omega (arith, e) in rw same at h
Holds-drop msg (x ∷ xs) ys a b e h = Holds-drop msg xs ys (a + 1) b (omega (arith, e)) h.1

pub Holds-same :
    (msg msg' : ℕ → ℕ) (xs : List ℕ) (a : ℕ)
    → ((i : ℕ) → i < a + length xs → msg' i ≡ msg i)
    → Holds msg a xs
    → Holds msg' a xs
Holds-same msg msg' [] a f h = tt
Holds-same msg msg' (x ∷ xs) a f h =
    (f a (omega arith) ∙ h.0, Holds-same msg msg' xs (a + 1) (λ i l. f i (omega arith)) h.1)

pub Holds-join :
    (msg : ℕ → ℕ) (xs ys : List ℕ) (a b : ℕ)
    → b ≡ a + length xs
    → Holds msg a xs
    → Holds msg b ys
    → Holds msg a (xs ++ ys)
Holds-join msg [] ys a b e h k = let same : b ≡ a = omega (arith, e) in rw same at k
Holds-join msg (x ∷ xs) ys a b e h k =
    (h.0, Holds-join msg xs ys (a + 1) b (omega (arith, e)) h.1 k)

pub Holds-take : (msg : ℕ → ℕ) (xs ys : List ℕ) (a : ℕ) → Holds msg a (xs ++ ys) → Holds msg a xs
Holds-take msg [] ys a h = tt
Holds-take msg (x ∷ xs) ys a h = (h.0, Holds-take msg xs ys (a + 1) h.1)

-- The last byte overwritten.
pub Holds-force :
    (msg : ℕ → ℕ) (xs : List ℕ) (c a stop : ℕ)
    → stop ≡ a + length xs
    → Holds msg a (xs ++ c ∷ [])
    → Holds (λ i. if i == stop then 0 else msg i) a (xs ++ 0 ∷ [])
Holds-force msg xs c a stop e h =
    let forced : ℕ → ℕ = λ i. if i == stop then 0 else msg i in
    Holds-join forced xs (0 ∷ []) a stop e
      (Holds-same msg forced xs a (λ i l. ground arith) (Holds-take msg xs (c ∷ []) a h))
      (rw (==_self stop) refl, tt)
