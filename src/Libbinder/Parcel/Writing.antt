-- ===== src/Libbinder/Parcel/Writing.antt =====
-- The write functions of Parcel in src/lib/binder/Parcel.cpp, for a little-endian machine.
use cdroid.Libbinder.Parcel.Growth.{grow_data, is_ok, is_fd}
use cdroid.Libbinder.Parcel.{
  Status, no_error, no_memory, bad_value, fds_not_allowed, Parcel, Heap, acquire_object,
  FlatBinderObject, Access, fault, done, ◌>>=◌, object_size, pad_size, sub32,
}
use cdroid.Memory.{read32, write32, write16s}
use cdroid.Prelude.{
  take, ℕ, ◌+◌, ◌*◌, ◌/◌, ◌%◌, ◌^◌, Bool, true, not, ◌&&◌, List, [], ◌∷◌, ◌++◌, Option, none, some,
  length, ltb, leb, ◌==◌, if◌then◌else◌,
}

-- memcpy of bytes
unfoldable pub write_bytes : (ℕ → ℕ) → ℕ → List ℕ → ℕ → ℕ
write_bytes mem a [] = mem
write_bytes mem a (b ∷ bs) = write_bytes (λ i. if i == a then b % 256 else mem i) (a + 1) bs

unfoldable pub finish_write : Parcel → ℕ → Parcel
finish_write p len =
    let pos = (p.data_pos + len) % 2 ^ 32 in
    record p { data_pos = pos; data_size = if ltb p.data_size pos then pos else p.data_size }

-- A change of `n` bytes at `a`.
abbrev pub store : Parcel → ℕ → ℕ → ((ℕ → ℕ) → ℕ → ℕ) → Access Parcel
store p a n change =
    if leb (a + n) p.data_capacity then done (record p { bytes = change p.bytes }) else fault

-- Up to the label restart_write: the end is in the capacity, or the data grows.
abbrev pub make_room : Heap → Parcel → ℕ → ℕ → Access (Status × Parcel)
make_room h p end len = if leb end p.data_capacity then done (no_error, p) else grow_data h p len

unfoldable pub write_unpadded : Heap → Parcel → List ℕ → Access (Status × Parcel)
write_unpadded h p from =
    let len = length from in
    let end = (p.data_pos + len) % 2 ^ 32 in
    if ltb end p.data_pos
    then done (bad_value, p)
    else (make_room h p end len >>= λ r.
        if not (is_ok r.0)
        then done r
        else (store r.1 r.1.data_pos len (λ mem. write_bytes mem r.1.data_pos from) >>= λ q.
            done (no_error, finish_write q len)))

-- The mask that keeps all but the last bytes of a word.
abbrev pub masked : ℕ → ℕ → ℕ
masked pad word =
    if pad == 1 then word % 2 ^ 24 else if pad == 2 then word % 2 ^ 16 else word % 2 ^ 8

-- The last word is cut to the bytes that are written.
abbrev pub apply_pad : Parcel → ℕ → ℕ → Access Parcel
apply_pad p padded len =
    let at = sub32 (p.data_pos + padded) 4 in
    if padded == len
    then done p
    else store p at 4 (λ mem. write32 mem at (masked (sub32 padded len) (read32 mem at)))

-- The result is the place to write to, or null.
unfoldable pub write_inplace : Heap → Parcel → ℕ → Access (Option ℕ × Parcel)
write_inplace h p len =
    let padded = pad_size len in
    let end = (p.data_pos + padded) % 2 ^ 32 in
    if ltb end p.data_pos
    then done (none, p)
    else (make_room h p end padded >>= λ r.
        if not (is_ok r.0)
        then done (none, r.1)
        else (apply_pad r.1 padded len >>= λ q. done (some q.data_pos, finish_write q padded)))

-- What the caller copies to the place that write_inplace gave.
abbrev pub fill_in : ℕ → ((ℕ → ℕ) → ℕ → ℕ → ℕ) → Option ℕ × Parcel → Access (Status × Parcel)
fill_in n change (none, p) = done (p.error, p)
fill_in n change (some at, p) = store p at n (λ mem. change mem at) >>= λ q. done (no_error, q)

unfoldable pub write : Heap → Parcel → List ℕ → Access (Status × Parcel)
write h p from =
    write_inplace h p (length from) >>= fill_in (length from) (λ mem at. write_bytes mem at from)

-- writeAligned for a type of 4 bytes, and for one of 8, a pair of words.
unfoldable pub write_int32 : Heap → Parcel → ℕ → Access (Status × Parcel)
write_int32 h p val = make_room h p ((p.data_pos + 4) % 2 ^ 32) 4 >>= λ r.
    if not (is_ok r.0)
    then done r
    else (store r.1 r.1.data_pos 4 (λ mem. write32 mem r.1.data_pos val) >>= λ q.
        done (no_error, finish_write q 4))

unfoldable pub write_int64 : Heap → Parcel → ℕ → Access (Status × Parcel)
write_int64 h p val = make_room h p ((p.data_pos + 8) % 2 ^ 32) 8 >>= λ r.
    if not (is_ok r.0)
    then done r
    else (store r.1 r.1.data_pos 8 (λ mem.
          write32 (write32 mem r.1.data_pos (val % 2 ^ 32)) (r.1.data_pos + 4) (val / 2 ^ 32))
        >>= λ q. done (no_error, finish_write q 8))

-- A string of bytes, without its NUL.
unfoldable pub write_c_string : Heap → Parcel → List ℕ → Access (Status × Parcel)
write_c_string h p str = write h p (str ++ 0 ∷ [])

unfoldable pub write_string8 : Heap → Parcel → List ℕ → Access (Status × Parcel)
write_string8 h p str = write_int32 h p (length str) >>= λ r.
    if is_ok r.0 && not (length str == 0) then write h r.1 (str ++ 0 ∷ []) else done r

-- A string of 16-bit units, or a null pointer.
unfoldable pub write_string16 : Heap → Parcel → Option (List ℕ) → Access (Status × Parcel)
write_string16 h p none = write_int32 h p 0xffffffff
write_string16 h p (some str) =
    let len = length str * 2 % 2 ^ 32 in
    write_int32 h p (length str) >>= λ r.
    if is_ok r.0
    then (write_inplace h r.1 ((len + 2) % 2 ^ 32)
        >>= fill_in (len + 2) (λ mem at. write16s mem at (take (len / 2) str ++ 0 ∷ [])))
    else done r

abbrev pub write_flat : (ℕ → ℕ) → ℕ → FlatBinderObject → ℕ → ℕ
write_flat mem a val =
    write32 (write32 (write32 (write32 mem a val.type) (a + 4) val.flags) (a + 8) val.binder)
      (a + 12) val.cookie

-- An entry among the objects, where the memory for them has room.
abbrev pub add_object : Parcel → FlatBinderObject → Bool → Access Parcel
add_object p val null_meta_data =
    if not null_meta_data && val.binder == 0
    then done p
    else if ltb (length p.objects) p.objects_room
    then done
        (record p { objects = p.objects ++ p.data_pos ∷ []; refs = acquire_object val ∷ p.refs })
    else fault

-- From the label restart_write of writeObject on.
abbrev pub put_object : Parcel → FlatBinderObject → Bool → Access (Status × Parcel)
put_object p val null_meta_data =
    store p p.data_pos object_size (λ mem. write_flat mem p.data_pos val) >>= λ q.
    add_object q val null_meta_data >>= λ r.
    if is_fd val && not r.allow_fds
    then done (fds_not_allowed, r)
    else done (
      no_error,
      finish_write (if is_fd val then record r { has_fds = true; fds_known = true } else r)
          object_size,
    )

-- mObjects grows by half.
abbrev pub grow_objects : Heap → Parcel → Access (Status × Parcel)
grow_objects h p =
    let new_size = (length p.objects + 2) * 3 % 2 ^ 32 / 2 in
    if h.room (new_size * 4 % 2 ^ 32)
    then done (no_error, record p { objects_capacity = new_size; objects_room = new_size })
    else done (no_memory, p)

unfoldable pub write_object : Heap → Parcel → FlatBinderObject → Bool → Access (Status × Parcel)
write_object h p val null_meta_data =
    make_room h p ((p.data_pos + object_size) % 2 ^ 32) object_size >>= λ r.
    if not (is_ok r.0)
    then done r
    else ((if ltb (length p.objects) p.objects_capacity then done r else grow_objects h r.1)
        >>= λ s. if not (is_ok s.0) then done s else put_object s.1 val null_meta_data)
