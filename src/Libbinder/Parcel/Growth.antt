-- ===== src/Libbinder/Parcel/Growth.antt =====
-- How a Parcel of src/lib/binder/Parcel.cpp gets and gives up memory: growData, continueWrite,
-- setDataSize, setDataCapacity and the release of the objects.
use cdroid.Libbinder.Parcel.{
  Status, no_error, no_memory, Parcel, Heap, RefCall, acquire_object, release_object,
  owner_released, FlatBinderObject, Access, fault, done, ◌>>=◌, object_at, init_state, type_fd,
}
use cdroid.Prelude.{
  drop, ℕ, ◌+◌, ◌*◌, ◌/◌, ◌%◌, ◌^◌, Bool, true, false, not, ◌&&◌, List, [], ◌∷◌, length, ltb, leb,
  ◌==◌, if◌then◌else◌,
}

-- The calls for the objects at these offsets, from the last to the first.
unfoldable pub for_objects :
    (FlatBinderObject → RefCall) → Parcel → List ℕ → List RefCall → Access (List RefCall)
for_objects call p [] refs = done refs
for_objects call p (o ∷ os) refs =
    for_objects call p os refs >>= λ rs. object_at p o >>= λ flat. done (call flat ∷ rs)

-- freeDataNoInit and initState.
unfoldable pub free_data : Parcel → Access Parcel
free_data p =
    if p.owner
    then done (init_state (owner_released ∷ p.refs))
    else (for_objects release_object p p.objects p.refs >>= λ refs. done (init_state refs))

-- The objects that are kept when the size is to be `desired`: the last ones go.
unfoldable pub trim : ℕ → List ℕ → List ℕ
trim desired [] = []
trim desired (o ∷ os) =
    let rest = trim desired os in
    elim rest [ [] ↦ if ltb o desired then o ∷ [] else [] | x ∷ xs ↦ o ∷ x ∷ xs ]

abbrev pub kept_objects : Parcel → ℕ → List ℕ
kept_objects p desired =
    if not (ltb desired p.data_size)
    then p.objects
    else if desired == 0
    then []
    else trim desired p.objects

-- memcpy into new memory
abbrev pub moved : Heap → ℕ → (ℕ → ℕ) → ℕ → ℕ
moved h n bytes i = if ltb i n then bytes i else h.junk i

abbrev pub no_room : Parcel → Access (Status × Parcel)
no_room p = done (no_memory, record p { error = no_memory })

-- With an owner, what is kept is copied and the owner gets its data back.
abbrev pub take_over : Heap → Parcel → ℕ → Access (Status × Parcel)
take_over h p desired =
    let kept = kept_objects p desired in
    let size = if ltb p.data_size desired then p.data_size else desired in
    if desired == 0
    then (free_data p >>= λ q. done (no_error, q))
    else if not (h.room desired)
    then no_room p
    else if not (length kept == 0) && not (h.room (length kept * 4 % 2 ^ 32))
    then no_room p
    else if p.has_data && not (leb size p.data_capacity)
    then fault
    else (for_objects acquire_object p kept p.refs >>= λ refs. done (
      no_error,
      record p {
        has_data = true;
        owner = false;
        bytes = moved h (if p.has_data then size else 0) p.bytes;
        data_size = size;
        data_capacity = desired;
        objects = kept;
        objects_capacity = length kept;
        objects_room = length kept;
        next_object_hint = 0;
        refs = owner_released ∷ refs;
      },
    ))

abbrev pub is_fd : FlatBinderObject → Bool
is_fd flat = flat.type == type_fd

-- The loop over the objects that are dropped, from the first on.
unfoldable pub drop_objects : Parcel → List ℕ → Access Parcel
drop_objects p [] = done p
drop_objects p (o ∷ os) = object_at p o >>= λ flat.
    drop_objects
      (record p {
        fds_known = p.fds_known && not (is_fd flat);
        refs = release_object flat ∷ p.refs;
      })
      os

-- The objects behind the new end of the parcel's own data go. realloc gives back the memory behind
-- the entries that are kept.
abbrev pub release_dropped : Parcel → ℕ → Access Parcel
release_dropped p desired =
    let kept = kept_objects p desired in
    if ltb (length kept) (length p.objects)
    then (drop_objects p (drop (length kept) p.objects) >>= λ q.
        done (record q { objects = kept; objects_room = length kept; next_object_hint = 0 }))
    else done p

-- realloc of the parcel's own data, or a smaller end.
abbrev pub resize : Heap → Parcel → ℕ → Access (Status × Parcel)
resize h p desired =
    if ltb p.data_capacity desired
    then (if h.room desired
        then done (
          no_error,
          record p { bytes = moved h p.data_capacity p.bytes; data_capacity = desired },
        )
        else no_room p)
    else done (
      no_error,
      record p {
        data_size = if ltb desired p.data_size then desired else p.data_size;
        data_pos = if ltb desired p.data_pos then desired else p.data_pos;
      },
    )

abbrev pub first_data : Heap → Parcel → ℕ → Access (Status × Parcel)
first_data h p desired =
    if h.room desired
    then done (
      no_error,
      record p {
        has_data = true;
        bytes = h.junk;
        data_size = 0;
        data_pos = 0;
        data_capacity = desired;
      },
    )
    else no_room p

unfoldable pub continue_write : Heap → Parcel → ℕ → Access (Status × Parcel)
continue_write h p desired =
    if p.owner
    then take_over h p desired
    else if p.has_data
    then (release_dropped p desired >>= λ q. resize h q desired)
    else first_data h p desired

unfoldable pub grow_data : Heap → Parcel → ℕ → Access (Status × Parcel)
grow_data h p len =
    let new_size = (p.data_size + len) * 3 % 2 ^ 32 / 2 in
    if leb new_size p.data_size then done (no_memory, p) else continue_write h p new_size

abbrev pub is_ok : Status → Bool
is_ok no_error = true
is_ok _ = false

unfoldable pub set_data_size : Heap → Parcel → ℕ → Access (Status × Parcel)
set_data_size h p size = continue_write h p size >>= λ r.
    done (r.0, if is_ok r.0 then record r.1 { data_size = size } else r.1)

unfoldable pub set_data_capacity : Heap → Parcel → ℕ → Access (Status × Parcel)
set_data_capacity h p size =
    if ltb p.data_capacity size then continue_write h p size else done (no_error, p)
