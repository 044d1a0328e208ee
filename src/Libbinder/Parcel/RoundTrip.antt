-- ===== src/Libbinder/Parcel/RoundTrip.antt =====
-- What is written to a parcel of src/lib/binder/Parcel.cpp is read back.
use cdroid.Libbinder.Parcel.Items.{Item, kind_of, write_items, read_items, IsItem, total_size}
use cdroid.Libbinder.Parcel.Stored.{write_items-Wrote}
use cdroid.Libbinder.Parcel.Fetched.{read_items_lem}
use cdroid.Libbinder.Parcel.Effects.{Written}
use cdroid.Libbinder.Parcel.Sound.{IsSound}
use cdroid.Libbinder.Parcel.{set_data_position, Parcel, Heap, done}
use cdroid.Prelude.{map, ◌≡◌, ◌<◌, ◌+◌, ◌^◌, inl, inr, arith, List, All}

-- Words, strings of 16-bit units and strings of bytes that are written to a parcel that owns its
-- data and stands within it (its position is not behind its data size, its data size not above its
-- capacity, the capacity below 2^32 and 0 where nothing is allocated), from its position on, with
-- less than 2^30 bytes in all: the write functions reach no memory outside the parcel, however
-- often the data grows, and either one of them fails with NO_MEMORY, or all return NO_ERROR, the
-- parcel stands within its data, and the read functions, from the position where the first item
-- was written, give the same items in the same order and end where the writes ended. The bytes of
-- a string are not NUL.
pub read_items-write_items :
    (h : Heap) (p : Parcel) (is : List Item)
    → IsSound p
    → All IsItem is
    → p.data_size + total_size is < 2 ^ 30
    → Written
        (λ q.
          IsSound q
          × (t : Parcel) × (read_items (set_data_position q p.data_pos) (map kind_of is)
              ≡ done (is, t))
          × (t.data_pos ≡ q.data_pos))
        (write_items h p is)
unfolding set_data_position
read_items-write_items h p is v f few = elim (write_items-Wrote h is p v f few) [
  | inl none_left ↦ inl none_left
  | inr (q, e, (w, lie)) ↦
      let (t, e', at) =
        read_items_lem is (set_data_position q p.data_pos)
          (record {
            enough = omega (arith, w.place, w.sound.ordered);
            held = w.sound.held;
            few = omega (arith, w.room, few);
          })
          f lie in
      inr (q, e, (w.sound, t, e', omega (arith, at, w.place)))
]
