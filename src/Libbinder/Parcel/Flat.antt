-- ===== src/Libbinder/Parcel/Flat.antt =====
-- The words of a flat_binder_object that writeObject of src/lib/binder/Parcel.cpp has stored.
use cdroid.Libbinder.Parcel.Writing.{write_flat}
use cdroid.Libbinder.Parcel.{FlatBinderObject}
use cdroid.Memory.{read32, write32, read32_same, read32-write32, write32_above, write32_below}
use cdroid.Prelude.{ℕ, ◌≡◌, ◌≤◌, ◌<◌, ◌+◌, ◌^◌, ◌⊎◌, inl, inr, arith, ◌∙◌}

-- A word beside the one that is written stays.
read32-write32_beside :
    (mem : ℕ → ℕ) (a b n : ℕ)
    → (a + 4 ≤ b) ⊎ (b + 4 ≤ a)
    → read32 (write32 mem a n) b ≡ read32 mem b
read32-write32_beside mem a b n (inl l) =
    read32_same mem (write32 mem a n) b (λ i x y. write32_above mem a n i (omega (arith, x, l)))
read32-write32_beside mem a b n (inr l) =
    read32_same mem (write32 mem a n) b (λ i x y. write32_below mem a n i (omega (arith, y, l)))

-- Every field fits 32 bits.
abbrev pub IsFlat : FlatBinderObject → Type 0
IsFlat val =
    (val.type < 2 ^ 32) × (val.flags < 2 ^ 32) × (val.binder < 2 ^ 32) × (val.cookie < 2 ^ 32)

module _ (mem : ℕ → ℕ) (a : ℕ) (val : FlatBinderObject) (f : IsFlat val) where
  abbrev m1 : ℕ → ℕ
  m1 = write32 mem a val.type

  abbrev m2 : ℕ → ℕ
  m2 = write32 m1 (a + 4) val.flags

  abbrev m3 : ℕ → ℕ
  m3 = write32 m2 (a + 8) val.binder

  pub written_type : read32 (write_flat mem a val) a ≡ val.type
  written_type =
      read32-write32_beside m3 (a + 12) a val.cookie (inr (omega arith))
      ∙ read32-write32_beside m2 (a + 8) a val.binder (inr (omega arith))
      ∙ read32-write32_beside m1 (a + 4) a val.flags (inr (omega arith))
      ∙ read32-write32 mem a val.type f.0

  pub written_flags : read32 (write_flat mem a val) (a + 4) ≡ val.flags
  written_flags =
      read32-write32_beside m3 (a + 12) (a + 4) val.cookie (inr (omega arith))
      ∙ read32-write32_beside m2 (a + 8) (a + 4) val.binder (inr (omega arith))
      ∙ read32-write32 m1 (a + 4) val.flags f.1

  pub written_binder : read32 (write_flat mem a val) (a + 8) ≡ val.binder
  written_binder =
      read32-write32_beside m3 (a + 12) (a + 8) val.cookie (inr (omega arith))
      ∙ read32-write32 m2 (a + 8) val.binder f.2

  pub written_cookie : read32 (write_flat mem a val) (a + 12) ≡ val.cookie
  written_cookie = read32-write32 m3 (a + 12) val.cookie f.3
