-- ===== src/Libbinder/Parcel/Bytes.antt =====
-- The bytes that memcpy of src/lib/binder/Parcel.cpp moves, and the search for a NUL among them.
use cdroid.Libbinder.Parcel.Reading.{bytes_at, find_nul}
use cdroid.Libbinder.Parcel.Writing.{write_bytes}
use cdroid.Prelude.{
  drop, get_or, sym, ℕ, zero, suc, ◌≡◌, ◌≤◌, ◌<◌, ◌+◌, ◌%◌, ◌==◌, if◌then◌else◌, arith, refl, ap,
  ◌∙◌, List, [], ◌∷◌, ◌++◌, All, length, take, some,
}

pub write_bytes_below :
    (bs : List ℕ) (mem : ℕ → ℕ) (a i : ℕ) → i < a → write_bytes mem a bs i ≡ mem i
unfolding write_bytes
write_bytes_below [] mem a i l = refl
write_bytes_below (b ∷ bs) mem a i l =
    write_bytes_below bs (λ i. if i == a then b % 256 else mem i) (a + 1) i (omega arith)
    ∙ ground arith

pub bytes_same :
    (n : ℕ) (mem mem' : ℕ → ℕ) (a : ℕ)
    → ((i : ℕ) → a ≤ i → i < a + n → mem' i ≡ mem i)
    → bytes_at mem' a n ≡ bytes_at mem a n
unfolding bytes_at
bytes_same zero mem mem' a h = refl
bytes_same (suc n) mem mem' a h = cc (
  h a (omega arith) (omega arith),
  bytes_same n mem mem' (a + 1) (λ i l k. h i (omega arith) (omega arith)),
)

pub bytes_at-write_bytes :
    (bs zs : List ℕ) (mem : ℕ → ℕ) (a : ℕ)
    → All (λ b. (0 < b) × (b < 256)) bs
    → bytes_at (write_bytes mem a (bs ++ zs)) a (length bs) ≡ bs
unfolding bytes_at write_bytes
bytes_at-write_bytes [] zs mem a h = refl
bytes_at-write_bytes (b ∷ bs) zs mem a h =
    let low = λ (i : ℕ). if i == a then b % 256 else mem i in
    let first : low a ≡ b = ground (arith, h.0.1) in
    cc (
      write_bytes_below (bs ++ zs) low (a + 1) a (omega arith),
      first,
      bytes_at-write_bytes bs zs low (a + 1) h.1,
    )

-- The NUL behind the bytes.
pub write_bytes_end :
    (bs : List ℕ) (mem : ℕ → ℕ) (a : ℕ) → write_bytes mem a (bs ++ 0 ∷ []) (a + length bs) ≡ 0
unfolding write_bytes
write_bytes_end [] mem a = ground arith
write_bytes_end (b ∷ bs) mem a =
    let low = λ (i : ℕ). if i == a then b % 256 else mem i in
    let at : a + suc (length bs) ≡ a + 1 + length bs = omega arith in
    ap (write_bytes low (a + 1) (bs ++ 0 ∷ [])) at ∙ write_bytes_end bs low (a + 1)

-- memchr stops at the first NUL.
pub find_nul_lem :
    (bs : List ℕ) (mem : ℕ → ℕ) (a n : ℕ)
    → All (λ b. (0 < b) × (b < 256)) bs
    → bytes_at mem a (length bs) ≡ bs
    → mem (a + length bs) ≡ 0
    → length bs < n
    → find_nul mem a n ≡ some (length bs)
unfolding find_nul bytes_at
find_nul_lem bs mem a zero h e z l = absurd (omega arith)
find_nul_lem [] mem a (suc n) h e z l =
    let at : a + 0 ≡ a = omega arith in let nul : mem a ≡ 0 = ap mem (sym at) ∙ z in rw nul refl
find_nul_lem (b ∷ bs) mem a (suc n) h e z l =
    let here : mem a ≡ b = ap (λ xs. get_or xs 0 0) e in
    let rest : bytes_at mem (a + 1) (length bs) ≡ bs = ap (drop 1) e in
    let at : a + 1 + length bs ≡ a + suc (length bs) = omega arith in
    let ih = find_nul_lem bs mem (a + 1) n h.1 rest (ap mem at ∙ z) (omega arith) in
    rw ih (ground (arith, here, h.0.0))

pub take-all : (n : ℕ) (xs : List ℕ) → n ≡ length xs → take n xs ≡ xs
take-all zero [] e = refl
take-all zero (x ∷ xs) e = absurd (omega arith)
take-all (suc n) [] e = absurd (omega arith)
take-all (suc n) (x ∷ xs) e = ap (◌∷◌ x) (take-all n xs (omega arith))
