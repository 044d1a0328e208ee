-- ===== src/ServiceManager/Bio/Limits.antt =====
-- How far the bio_get_ functions reach.
use cdroid.ServiceManager.Bio.Reading.{bio_get_room, get_uint32_room}
use cdroid.Prelude.{
  ◌∙◌, inr, inl, ap, ltb, Bool-cases, Option, ℕ, ◌+◌, ◌<◌, ◌≤◌, ◌≡◌, ◌^◌, ◌/◌, ◌*◌, some, none,
  true, refl, arith,
}
use cdroid.ServiceManager.Bio.{
  get_units, advance, round4, read32, bio_get_string16, BinderIo, bio_get,
}

-- What bio_get returns lies in the part that was left to read, and so does what it leaves.
abbrev pub Within : BinderIo → ℕ → Option ℕ × BinderIo → Type 0
Within r size (none, t) =
    (t.overflow ≡ true) × (r.data_avail < (size + 3) / 4 * 4) × (t.data_avail ≡ 0)
Within r size (some p, t) =
    (p ≡ r.data_at)
    × (p + size ≤ t.data_at)
    × (t.overflow ≡ r.overflow)
    × (t.data_at + t.data_avail ≡ r.data_at + r.data_avail)

-- bio_get, for a size that does not wrap when rounded up, returns the place of the next bytes,
-- which lie with all that is left to read inside the part that was left before; or it returns a
-- null pointer, with less than the rounded size left before and nothing behind, and sets the
-- overflow flag.
pub bio_get-Within : (r : BinderIo) (size : ℕ) → size + 3 < 2 ^ 32 → Within r size (bio_get r size)
unfolding bio_get
bio_get-Within r size small = elim (Bool-cases (ltb r.data_avail (round4 size))) [
  | inl e ↦ rw e (refl, ground (arith, e), refl)
  | inr e ↦ rw e (refl, omega arith, refl, ground (arith, e))
]

-- bio_get_string16, on any message with at least the four bytes of the length 0x7fffffff left,
-- returns that length and the place behind it without an overflow, and takes no byte for the
-- string: the size in bytes wraps to 0.
pub bio_get_string16_wraps :
    (r : BinderIo)
    → 4 ≤ r.data_avail
    → read32 r.memory r.data_at ≡ 2147483647
    → bio_get_string16 r ≡ (some (r.data_at + 4), 2147483647, advance (advance r 4) 0)
unfolding bio_get_string16
bio_get_string16_wraps r room h =
    ap get_units (get_uint32_room r room ∙ ap (λ n. (n, advance r 4)) h)
    ∙ ap (λ q. (q.0, 2147483647, q.1)) (bio_get_room (advance r 4) 0 (omega arith))
