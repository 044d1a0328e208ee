-- ===== src/Libbinder/Tests.antt =====
-- Parcels at concrete inputs.
use cdroid.Libbinder.Parcel.RoundTrip.{read_items-write_items}
use cdroid.Libbinder.Parcel.Objects.{read_object-write_object}
use cdroid.Libbinder.Parcel.Looking.{Looked, read_object-Looked}
use cdroid.Libbinder.Parcel.Entering.{IsObjects}
use cdroid.Libbinder.Parcel.Calls.{an_int32, an_object, some_bytes, run_reads, run_reads-IsInside}
use cdroid.Libbinder.Parcel.Inside.{IsInside}
use cdroid.Libbinder.Parcel.Limits.{
  read_exception_code_outside, read_string16_wraps, write_inplace_wraps,
}
use cdroid.Libbinder.Parcel.Items.{Item, word, text, chars, kind_of, read_items, write_items}
use cdroid.Libbinder.Parcel.Effects.{Written}
use cdroid.Libbinder.Parcel.Sound.{IsSound}
use cdroid.Libbinder.Parcel.Growth.{is_fd}
use cdroid.Libbinder.Parcel.Writing.{write_inplace, write_object}
use cdroid.Libbinder.Parcel.Reading.{
  read_exception_code, read_int32, read_object, read_string16, read_string16_inplace,
}
use cdroid.Libbinder.Parcel.{
  Parcel, Heap, done, fault, init_state, set_data_position, no_memory, no_error, fds_not_allowed,
  FlatBinderObject, acquire_object, object_at,
}
use cdroid.Memory.{read32, write32}
use cdroid.Libbinder.Parcel.Hint.{IsAscending}
use cdroid.Libbinder.Parcel.Cutting.{releases, no_fds}
use cdroid.Libbinder.Parcel.Dropping.{set_data_size_drops, write_object_overruns}
use cdroid.Libbinder.Parcel.Growth.{set_data_size}
use cdroid.Libbinder.Parcel.Received.{read_items-received}
use cdroid.Libbinder.Parcel.Whole.{ipc_set_data_reference, ipc_data_size}
use cdroid.Prelude.{
  inl, ℕ, All, ◌++◌, ◌-◌, zero, suc, ◌≡◌, ◌≤◌, ◌<◌, ◌^◌, ◌⊎◌, true, false, arith, refl, some, List,
  [], ◌∷◌, map,
}

abbrev heap : Heap
heap = record { room = λ n. true; junk = λ i. 165 }

abbrev fresh : Parcel
fresh = init_state []

fresh-IsSound : IsSound fresh
fresh-IsSound = record {
  owned = refl;
  ordered = omega arith;
  held = omega arith;
  small = omega arith;
  nothing = λ e. refl;
}

abbrev items : List Item
items = word 7 ∷ text (72 ∷ 105 ∷ []) ∷ chars (97 ∷ []) ∷ []

read_items-write_items_example :
    Written
      (λ q.
        IsSound q
        × (t : Parcel) × (read_items (set_data_position q 0) (map kind_of items) ≡ done (items, t))
        × (t.data_pos ≡ q.data_pos))
      (write_items heap fresh items)
read_items-write_items_example =
    read_items-write_items heap fresh items fresh-IsSound
      (omega arith, ((omega arith, (omega arith, tt)), (((omega arith, omega arith), tt), tt)))
      (omega arith)

abbrev a_handle : FlatBinderObject
a_handle = record { type = 0x73682a85; flags = 0x17f; binder = 1; cookie = 0 }

fresh-IsObjects : IsObjects fresh
fresh-IsObjects = record {
  ascending = λ i j l u. absurd (omega arith);
  before = λ i l. absurd (omega arith);
  roomy = omega arith;
}

read_object-write_object_example :
    ((q : Parcel) × (write_object heap fresh a_handle false ≡ done (no_memory, q)))
    ⊎ ((q : Parcel) × (write_object heap fresh a_handle false ≡ done (fds_not_allowed, q))
        × (is_fd a_handle ≡ true)
        × (fresh.allow_fds ≡ false))
    ⊎ ((q : Parcel) × (write_object heap fresh a_handle false ≡ done (no_error, q))
        × (q.refs ≡ acquire_object a_handle ∷ [])
        × (t : Parcel) × (read_object (record q { data_pos = 0; next_object_hint = 5 }) false
            ≡ done (some a_handle, t))
        × (t.data_pos ≡ q.data_pos))
read_object-write_object_example =
    read_object-write_object heap fresh a_handle false fresh-IsSound fresh-IsObjects
      (omega arith, omega arith, omega arith, omega arith) refl (omega arith) (omega arith) 5 false

-- 64 bytes of 0, with objects at 16 and 40.
abbrev received : Parcel
received = record fresh {
  has_data = true;
  data_size = 64;
  data_capacity = 64;
  data_pos = 40;
  objects = 16 ∷ 40 ∷ [];
  next_object_hint = 1;
}

received-IsAscending : IsAscending received.objects
received-IsAscending zero zero l u = absurd (omega arith)
received-IsAscending zero (suc zero) l u = omega arith
received-IsAscending zero (suc (suc j)) l u = absurd (omega arith)
received-IsAscending (suc i) zero l u = absurd (omega arith)
received-IsAscending (suc i) (suc zero) l u = absurd (omega arith)
received-IsAscending (suc i) (suc (suc j)) l u = absurd (omega arith)

read_object-Looked_example :
    (obj : FlatBinderObject) × (q : Parcel) × (object_at received 40 ≡ done obj)
    × (q.data_pos ≡ 56)
    × Looked received true obj q
read_object-Looked_example =
    read_object-Looked received (omega arith) (omega arith) (omega arith) received-IsAscending true

received-IsInside : IsInside received
received-IsInside = record { ordered = omega arith; held = omega arith; small = omega arith }

run_reads-IsInside_example :
    (q : Parcel) × (run_reads received (an_object false ∷ an_int32 ∷ some_bytes 3 ∷ []) ≡ done q)
    × IsInside q
    × (40 ≤ q.data_pos)
    × (q.bytes ≡ received.bytes)
    × (q.data_size ≡ 64)
run_reads-IsInside_example =
    run_reads-IsInside (an_object false ∷ an_int32 ∷ some_bytes 3 ∷ []) received received-IsInside
      (tt, (tt, (omega arith, tt)))

-- A length of 2^31 - 2 at 40.
abbrev long_string : Parcel
long_string = record received { bytes = write32 received.bytes 40 (2 ^ 31 - 2) }

read_string16_wraps_example :
    (q : Parcel) × (read_string16_inplace long_string ≡ done (some (44, 2 ^ 31 - 2), q))
    × (q.data_pos ≡ 44)
    × (read_string16 long_string ≡ fault)
unfolding write32 read32
read_string16_wraps_example =
    read_string16_wraps long_string
      (record { ordered = omega arith; held = omega arith; small = omega arith }) (omega arith) refl

-- A reply header of -45 bytes, from 44 on.
abbrev odd_header : Parcel
odd_header = record received {
  bytes = write32 (write32 received.bytes 40 (2 ^ 32 - 128)) 44 (2 ^ 32 - 45);
}

read_exception_code_outside_example :
    (q : Parcel) × (read_exception_code odd_header ≡ done (0, q)) × (read_int32 q ≡ fault)
unfolding write32 read32
read_exception_code_outside_example =
    read_exception_code_outside odd_header
      (record { ordered = omega arith; held = omega arith; small = omega arith }) (omega arith) refl
      (omega arith)

write_inplace_wraps_example :
    (q : Parcel) × (write_inplace heap fresh (2 ^ 31) ≡ done (some 0, q))
    × (q.data_size ≡ 2 ^ 31)
    × (q.data_capacity < 2 ^ 31)
write_inplace_wraps_example =
    write_inplace_wraps heap [] (2 ^ 31) refl refl (omega arith) (omega arith)

-- A parcel of two objects, to be cut between them.
abbrev two_objects : Parcel
two_objects = record received { objects_capacity = 3; objects_room = 3; data_pos = 56 }

two_objects-IsSound : IsSound two_objects
two_objects-IsSound = record {
  owned = refl;
  ordered = omega arith;
  held = omega arith;
  small = omega arith;
  nothing = λ e. cc;
}

set_data_size_drops_example :
    (kept : List ℕ) × (dropped : List ℕ) × (16 ∷ 40 ∷ [] ≡ kept ++ dropped)
    × All (λ o. o < 32) kept
    × All (λ o. 32 ≤ o) dropped
    × (q : Parcel) × (set_data_size heap two_objects 32 ≡ done (no_error, q))
    × (q.objects ≡ kept)
    × (q.refs ≡ releases two_objects.bytes dropped [])
    × (q.fds_known ≡ no_fds two_objects.bytes dropped true)
    × (q.bytes ≡ two_objects.bytes)
    × (q.data_size ≡ 32)
    × (q.data_pos ≡ 32)
set_data_size_drops_example =
    set_data_size_drops heap two_objects two_objects-IsSound refl ((omega arith, tt), (tt, tt))
      (omega arith, (omega arith, tt)) 32 (omega arith) (omega arith)

write_object_overruns_example :
    (q : Parcel) × (set_data_size heap two_objects 32 ≡ done (no_error, q))
    × (write_object heap q a_handle false ≡ fault)
write_object_overruns_example =
    write_object_overruns heap two_objects two_objects-IsSound refl ((omega arith, tt), (tt, tt))
      (omega arith, (omega arith, tt)) 32 (omega arith) (omega arith) (16 ∷ []) 40 a_handle false
      refl (omega arith) (omega arith) (omega arith) refl

-- A parcel whose data belong to an owner.
abbrev lent : Parcel
lent = record received { owner = true }

read_items-received_example :
    Written
      (λ q.
        (s : Parcel) × (ipc_set_data_reference lent q.bytes (ipc_data_size q) q.objects ≡ done s)
        × (t : Parcel) × (read_items s (map kind_of items) ≡ done (items, t))
        × (t.data_pos ≡ s.data_size))
      (write_items heap fresh items)
read_items-received_example =
    read_items-received heap [] lent items
      (omega arith, ((omega arith, (omega arith, tt)), (((omega arith, omega arith), tt), tt)))
      (omega arith) (inl refl)
