-- ===== src/Libbinder/Parcel/Received.antt =====
-- A parcel of src/lib/binder/Parcel.cpp that is sent is read by the one that receives it.
use cdroid.Libbinder.Parcel.Whole.{
  ipc_set_data_reference, ipc_data_size, free_data_no_init, scan_for_fds, scan,
}
use cdroid.Libbinder.Parcel.Items.{
  Item, kind_of, read_items, write_items, IsItem, total_size, LieAll,
}
use cdroid.Libbinder.Parcel.Stored.{write_items-Wrote}
use cdroid.Libbinder.Parcel.Fetched.{read_items_lem}
use cdroid.Libbinder.Parcel.Effects.{Written}
use cdroid.Libbinder.Parcel.Sound.{IsSound}
use cdroid.Libbinder.Parcel.Growth.{for_objects}
use cdroid.Libbinder.Parcel.{
  no_error, Parcel, Heap, done, init_state, RefCall, data_size, owner_released,
}
use cdroid.Prelude.{
  ℕ, ◌≡◌, ◌<◌, ◌^◌, ◌⊎◌, inl, inr, Bool-cases, true, false, arith, refl, sym, subst, List, [], ◌∷◌,
  map, All,
}

init_state-IsSound : (refs : List RefCall) → IsSound (init_state refs)
init_state-IsSound refs = record {
  owned = refl;
  ordered = omega arith;
  held = omega arith;
  small = omega arith;
  nothing = λ e. refl;
}

-- A parcel without objects of its own, or with an owner, lets its data go.
lets_go :
    (r : Parcel)
    → (r.owner ≡ true) ⊎ (r.objects ≡ [])
    → (refs : List RefCall) × (free_data_no_init r ≡ done refs)
unfolding free_data_no_init for_objects
lets_go r (inl owned) = (owner_released ∷ r.refs, rw owned refl)
lets_go r (inr none_there) = elim (Bool-cases r.owner) [
  | inl owned ↦ (owner_released ∷ r.refs, rw owned refl)
  | inr own ↦ (r.refs, rw (own, none_there) refl)
]

-- The receiver stands before the data, which has no objects.
receives :
    (r : Parcel) (bytes : ℕ → ℕ) (size : ℕ) (objects : List ℕ)
    → (r.owner ≡ true) ⊎ (r.objects ≡ [])
    → objects ≡ []
    → (q : Parcel) × (ipc_set_data_reference r bytes size objects ≡ done q)
      × (q.data_pos ≡ 0)
      × (q.data_size ≡ size)
      × (q.data_capacity ≡ size)
      × (q.bytes ≡ bytes)
unfolding ipc_set_data_reference scan_for_fds scan
receives r bytes size objects goes none_sent =
    let (refs, e) = lets_go r goes in
    subst
      (λ os.
        (q : Parcel) × (ipc_set_data_reference r bytes size os ≡ done q)
        × (q.data_pos ≡ 0)
        × (q.data_size ≡ size)
        × (q.data_capacity ≡ size)
        × (q.bytes ≡ bytes))
      (sym none_sent)
      (
        record r {
          error = no_error;
          has_data = true;
          bytes = bytes;
          data_size = size;
          data_capacity = size;
          data_pos = 0;
          objects = [];
          objects_capacity = 0;
          objects_room = 0;
          next_object_hint = 0;
          owner = true;
          has_fds = false;
          fds_known = true;
          refs = refs;
        },
        rw e refl,
        refl,
        refl,
        refl,
        refl,
      )

-- Words, strings of 16-bit units and strings of bytes, of less than 2^30 bytes in all, that are
-- written to a new parcel: a write fails with NO_MEMORY, or another parcel, which has an owner or
-- no objects, takes the data over by ipcSetDataReference, reaches no memory outside it, and gives
-- the same items in the same order, with nothing left behind them. The bytes of a string are not
-- NUL.
pub read_items-received :
    (h : Heap) (refs : List RefCall) (r : Parcel) (is : List Item)
    → All IsItem is
    → total_size is < 2 ^ 30
    → (r.owner ≡ true) ⊎ (r.objects ≡ [])
    → Written
        (λ q.
          (s : Parcel) × (ipc_set_data_reference r q.bytes (ipc_data_size q) q.objects ≡ done s)
          × (t : Parcel) × (read_items s (map kind_of is) ≡ done (is, t))
          × (t.data_pos ≡ s.data_size))
        (write_items h (init_state refs) is)
unfolding data_size
read_items-received h refs r is v few goes =
    elim (write_items-Wrote h is (init_state refs) (init_state-IsSound refs) v
      (omega (arith, few))) [
        | inl none_left ↦ inl none_left
        | inr (q, e, (w, lie)) ↦
            let size : ipc_data_size q ≡ total_size is =
              ground (arith, w.place, w.room, w.sound.ordered) in
            let (s, e', pos, end, capacity, bytes) =
              receives r q.bytes (ipc_data_size q) q.objects goes w.same_objects in
            let (t, e'', at) =
              read_items_lem is s
                (record {
                  enough = omega (arith, pos, end, size);
                  held = omega (arith, end, capacity);
                  few = omega (arith, end, size, few);
                })
                v
                (subst (λ m. LieAll m s.data_pos is) (sym bytes)
                  (subst (λ a. LieAll q.bytes a is) (sym pos) lie)) in
            inr (q, e, (s, e', t, e'', omega (arith, at, pos, end, size)))
      ]
