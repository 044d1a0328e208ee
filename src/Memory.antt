-- ===== src/Memory.antt =====
-- Little-endian words in memory, as src/cmds/servicemanager/binder.c and src/lib/binder/Parcel.cpp
-- store them through uint32_t and uint16_t pointers. A buffer is a function from offsets.
use cdroid.Prelude.{
  ap, ◌++◌, length, ◌∙◌, ◌≤◌, All, ℕ, zero, suc, ◌+◌, ◌*◌, ◌/◌, ◌%◌, ◌^◌, ◌<◌, ◌≡◌, refl, List, [],
  ◌∷◌, arith, ◌==◌, if◌then◌else◌,
}

unfoldable pub read32 : (ℕ → ℕ) → ℕ → ℕ
read32 mem a = mem a + 256 * mem (a + 1) + 65536 * mem (a + 2) + 16777216 * mem (a + 3)

unfoldable pub write32 : (ℕ → ℕ) → ℕ → ℕ → ℕ → ℕ
write32 mem a n i =
    if i == a
    then n % 256
    else if i == a + 1
    then n / 256 % 256
    else if i == a + 2
    then n / 65536 % 256
    else if i == a + 3
    then n / 16777216 % 256
    else mem i

unfoldable pub read16 : (ℕ → ℕ) → ℕ → ℕ
read16 mem a = mem a + 256 * mem (a + 1)

unfoldable pub write16 : (ℕ → ℕ) → ℕ → ℕ → ℕ → ℕ
write16 mem a n i = if i == a then n % 256 else if i == a + 1 then n / 256 % 256 else mem i

-- memcpy of 16-bit units, and the units read back.
unfoldable pub write16s : (ℕ → ℕ) → ℕ → List ℕ → ℕ → ℕ
write16s mem a [] = mem
write16s mem a (u ∷ us) = write16s (write16 mem a u) (a + 2) us

unfoldable pub read16s : (ℕ → ℕ) → ℕ → ℕ → List ℕ
read16s mem a zero = []
read16s mem a (suc n) = read16 mem a ∷ read16s mem (a + 2) n

-- What a word is at and beside a write.
pub read32-write32 : (mem : ℕ → ℕ) (a n : ℕ) → n < 2 ^ 32 → read32 (write32 mem a n) a ≡ n
unfolding read32 write32
read32-write32 mem a n h = ground (arith, h)

pub write32_below : (mem : ℕ → ℕ) (a n i : ℕ) → i < a → write32 mem a n i ≡ mem i
unfolding write32
write32_below mem a n i h = ground arith

pub write32_above : (mem : ℕ → ℕ) (a n i : ℕ) → a + 3 < i → write32 mem a n i ≡ mem i
unfolding write32
write32_above mem a n i h = ground arith

read16-write16 : (mem : ℕ → ℕ) (a n : ℕ) → n < 2 ^ 16 → read16 (write16 mem a n) a ≡ n
unfolding read16 write16
read16-write16 mem a n h = ground (arith, h)

write16_below : (mem : ℕ → ℕ) (a n i : ℕ) → i < a → write16 mem a n i ≡ mem i
unfolding write16
write16_below mem a n i h = ground arith

pub write16s_below : (us : List ℕ) (mem : ℕ → ℕ) (a i : ℕ) → i < a → write16s mem a us i ≡ mem i
unfolding write16s
write16s_below [] mem a i h = refl
write16s_below (u ∷ us) mem a i h =
    write16s_below us (write16 mem a u) (a + 2) i (omega arith) ∙ write16_below mem a u i h

-- Words that agree byte by byte are equal.
pub read32_same :
    (mem mem' : ℕ → ℕ) (a : ℕ)
    → ((i : ℕ) → a ≤ i → i < a + 4 → mem' i ≡ mem i)
    → read32 mem' a ≡ read32 mem a
unfolding read32
read32_same mem mem' a h = omega (
  arith,
  h a (omega arith) (omega arith),
  h (a + 1) (omega arith) (omega arith),
  h (a + 2) (omega arith) (omega arith),
  h (a + 3) (omega arith) (omega arith),
)

pub read16_same :
    (mem mem' : ℕ → ℕ) (a : ℕ)
    → ((i : ℕ) → a ≤ i → i < a + 2 → mem' i ≡ mem i)
    → read16 mem' a ≡ read16 mem a
unfolding read16
read16_same mem mem' a h =
    omega (arith, h a (omega arith) (omega arith), h (a + 1) (omega arith) (omega arith))

pub read16s_same :
    (n : ℕ) (mem mem' : ℕ → ℕ) (a : ℕ)
    → ((i : ℕ) → a ≤ i → i < a + 2 * n → mem' i ≡ mem i)
    → read16s mem' a n ≡ read16s mem a n
unfolding read16s
read16s_same zero mem mem' a h = refl
read16s_same (suc n) mem mem' a h = cc (
  read16_same mem mem' a (λ i l k. h i l (omega arith)),
  read16s_same n mem mem' (a + 2) (λ i l k. h i (omega arith) (omega arith)),
)

pub read16s-write16s :
    (us zs : List ℕ) (mem : ℕ → ℕ) (a : ℕ)
    → All (λ u. u < 2 ^ 16) us
    → read16s (write16s mem a (us ++ zs)) a (length us) ≡ us
unfolding read16s write16s
read16s-write16s [] zs mem a h = refl
read16s-write16s (u ∷ us) zs mem a h =
    let low = write16 mem a u in
    cc (
      read16_same low (write16s low (a + 2) (us ++ zs)) a
          (λ i l k. write16s_below (us ++ zs) low (a + 2) i k),
      read16-write16 mem a u h.0,
      read16s-write16s us zs low (a + 2) h.1,
    )

-- The NUL behind the units.
pub read16-write16s_end :
    (us : List ℕ) (mem : ℕ → ℕ) (a pos : ℕ)
    → pos ≡ a + 2 * length us
    → read16 (write16s mem a (us ++ 0 ∷ [])) pos ≡ 0
unfolding write16s
read16-write16s_end [] mem a pos e =
    let same : pos ≡ a = omega (arith, e) in
    ap (read16 (write16 mem a 0)) same ∙ read16-write16 mem a 0 (omega arith)
read16-write16s_end (u ∷ us) mem a pos e =
    read16-write16s_end us (write16 mem a u) (a + 2) pos (omega (arith, e))
