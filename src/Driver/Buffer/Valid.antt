-- ===== src/Driver/Buffer/Valid.antt =====
-- What holds of the buffers of a process between calls, in driver/binder.c.
use cdroid.Driver.Rbtree.Holds.{Holds}
use cdroid.Driver.Buffer.{
  Buffer, Proc, sizeof_buffer, align, area_end, next_addr, binder_buffer_size,
}
use cdroid.Driver.Buffer.Tiling.{Tiles, Coalesced, addrs}
use cdroid.Prelude.{
  ℕ, ◌+◌, ◌/◌, ◌%◌, ◌^◌, ◌≤◌, ◌<◌, ◌≡◌, true, false, ◌&&◌, not, List, [], ◌∷◌, ◌++◌, arith,
  if◌then◌else◌,
}

-- The bytes that a buffer's transaction takes.
abbrev pub used : Buffer → ℕ
used b = (align b.data_size + align b.offsets_size) % 2 ^ 64

-- An allocated buffer has room for its transaction; the sum of the sizes has not wrapped.
abbrev pub Fits : ℕ → List Buffer → Type 0
Fits hi [] = Unit {0}
Fits hi (b ∷ bs) =
    (b.free ≡ false
      → (b.addr + sizeof_buffer + used b ≤ next_addr hi bs)
        × (b.data_size ≤ used b)
        × (b.offsets_size ≤ used b))
    × Fits hi bs

-- What the allocated asynchronous buffers count for.
abbrev pub async_used : List Buffer → ℕ
async_used [] = 0
async_used (b ∷ bs) =
    (if not b.free && b.async_transaction then used b + sizeof_buffer else 0) + async_used bs

-- The list tiles the area and has no two free neighbours; each tree holds the buffers of its kind in
-- its order; the asynchronous space with what is in use is no more than half the area.
pub record IsValid (p : Proc) : Type 0 where
  pub tiles : Tiles p.buffer (area_end p) p.buffers
  pub coalesced : Coalesced false p.buffers
  pub fits : Fits (area_end p) p.buffers
  pub free_tree : Holds (binder_buffer_size p) p.free_buffers (addrs true p.buffers)
  pub allocated_tree : Holds (λ x. x) p.allocated_buffers (addrs false p.buffers)
  pub async : p.free_async_space + async_used p.buffers ≤ p.buffer_size / 2
  pub area : area_end p < 2 ^ 64

pub async_used-append :
    (xs ys : List Buffer) → async_used (xs ++ ys) ≡ async_used xs + async_used ys
async_used-append [] ys = ground arith
async_used-append (x ∷ xs) ys = ground (arith, async_used-append xs ys)

module _ (hi : ℕ) where
  pub Fits-append :
      (xs ys : List Buffer) → Fits (next_addr hi ys) xs → Fits hi ys → Fits hi (xs ++ ys)
  Fits-append [] ys h k = k
  Fits-append (x ∷ []) [] h k = (h.0, k)
  Fits-append (x ∷ []) (y ∷ ys) h k = (h.0, k)
  Fits-append (x ∷ x' ∷ xs) ys h k = (h.0, Fits-append (x' ∷ xs) ys h.1 k)

  pub Fits-append_left : (xs ys : List Buffer) → Fits hi (xs ++ ys) → Fits (next_addr hi ys) xs
  Fits-append_left [] ys h = tt
  Fits-append_left (x ∷ []) [] h = h
  Fits-append_left (x ∷ []) (y ∷ ys) h = (h.0, tt)
  Fits-append_left (x ∷ x' ∷ xs) ys h = (h.0, Fits-append_left (x' ∷ xs) ys h.1)

  pub Fits-append_right : (xs ys : List Buffer) → Fits hi (xs ++ ys) → Fits hi ys
  Fits-append_right [] ys h = h
  Fits-append_right (x ∷ xs) ys h = Fits-append_right xs ys h.1
