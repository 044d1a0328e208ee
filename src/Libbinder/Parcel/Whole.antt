-- ===== src/Libbinder/Parcel/Whole.antt =====
-- The functions of src/lib/binder/Parcel.cpp that replace all data of a parcel, and those about file
-- descriptors.
use cdroid.Libbinder.Parcel.Growth.{for_objects, free_data, continue_write, moved, is_fd, is_ok}
use cdroid.Libbinder.Parcel.Writing.{write_bytes, write_object}
use cdroid.Libbinder.Parcel.Reading.{read_object}
use cdroid.Libbinder.Parcel.{
  Status, no_error, no_memory, Parcel, Heap, Access, fault, done, ◌>>=◌, object_at, release_object,
  owner_released, RefCall, type_fd, data_size,
}
use cdroid.Prelude.{
  ℕ, Bool, true, false, not, ◌&&◌, List, [], ◌∷◌, Option, none, some, length, ltb, leb, ◌==◌,
  if◌then◌else◌,
}

-- freeDataNoInit
unfoldable pub free_data_no_init : Parcel → Access (List RefCall)
free_data_no_init p =
    if p.owner
    then done (owner_released ∷ p.refs)
    else for_objects release_object p p.objects p.refs

-- scanForFds; the loop stops at the first descriptor.
unfoldable pub scan : Parcel → List ℕ → Access Bool
scan p [] = done false
scan p (o ∷ os) = object_at p o >>= λ flat. if is_fd flat then done true else scan p os

unfoldable pub scan_for_fds : Parcel → Access Parcel
scan_for_fds p = scan p p.objects >>= λ fds. done (record p { has_fds = fds; fds_known = true })

unfoldable pub has_file_descriptors : Parcel → Access (Bool × Parcel)
has_file_descriptors p =
    if p.fds_known then done (p.has_fds, p) else (scan_for_fds p >>= λ q. done (q.has_fds, q))

unfoldable pub push_allow_fds : Parcel → Bool → Bool × Parcel
push_allow_fds p allow = (p.allow_fds, if not allow then record p { allow_fds = false } else p)

unfoldable pub restore_allow_fds : Parcel → Bool → Parcel
restore_allow_fds p last = record p { allow_fds = last }

-- ipcSetDataReference; the data belong to the owner from then on.
unfoldable pub ipc_set_data_reference : Parcel → (ℕ → ℕ) → ℕ → List ℕ → Access Parcel
ipc_set_data_reference p bytes size objects = free_data_no_init p >>= λ refs.
    scan_for_fds (record p {
      error = no_error;
      has_data = true;
      bytes = bytes;
      data_size = size;
      data_capacity = size;
      data_pos = 0;
      objects = objects;
      objects_capacity = length objects;
      objects_room = length objects;
      next_object_hint = 0;
      owner = true;
      refs = refs;
    })

-- ipcDataSize
abbrev pub ipc_data_size : Parcel → ℕ
ipc_data_size = data_size

-- The old data is given to realloc before the objects in it are released: with an object there, a
-- read of memory that is given away.
abbrev start_again : Heap → Parcel → ℕ → Access (Status × Parcel)
start_again h p desired =
    if not (h.room desired) && ltb p.data_capacity desired
    then done (no_memory, record p { error = no_memory })
    else if h.room desired && not (length p.objects == 0)
    then fault
    else (for_objects release_object p p.objects p.refs >>= λ refs. done (
      no_error,
      record p {
        has_data = if h.room desired then true else p.has_data;
        bytes = if h.room desired then moved h p.data_capacity p.bytes else p.bytes;
        data_capacity = if h.room desired then desired else p.data_capacity;
        data_size = 0;
        data_pos = 0;
        objects = [];
        objects_capacity = 0;
        objects_room = 0;
        next_object_hint = 0;
        has_fds = false;
        fds_known = true;
        allow_fds = true;
        refs = refs;
      },
    ))

unfoldable pub restart_write : Heap → Parcel → ℕ → Access (Status × Parcel)
restart_write h p desired =
    if p.owner then (free_data p >>= λ q. continue_write h q desired) else start_again h p desired

unfoldable pub set_data : Heap → Parcel → List ℕ → Access (Status × Parcel)
set_data h p from = restart_write h p (length from) >>= λ r.
    if not (is_ok r.0)
    then done r
    else if not (leb (length from) r.1.data_capacity)
    then fault
    else done (
      no_error,
      record r.1 {
        bytes = write_bytes r.1.bytes 0 from;
        data_size = length from;
        fds_known = false;
      },
    )

unfoldable pub write_file_descriptor : Heap → Parcel → ℕ → Bool → Access (Status × Parcel)
write_file_descriptor h p fd take_ownership =
    write_object h p
      (record {
        type = type_fd;
        flags = 0x17f;
        binder = fd;
        cookie = if take_ownership then 1 else 0;
      })
      true

-- The descriptor, or BAD_TYPE.
unfoldable pub read_file_descriptor : Parcel → Access (Option ℕ × Parcel)
read_file_descriptor p = read_object p true >>= λ r. elim r.0 [
  | some flat ↦ done (if is_fd flat then some flat.binder else none, r.1)
  | none ↦ done (none, r.1)
]
