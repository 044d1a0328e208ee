-- ===== src/Libbinder/Parcel/Reading.antt =====
-- The read functions of Parcel in src/lib/binder/Parcel.cpp. A read takes the parcel along, since it
-- changes mDataPos and mNextObjectHint.
use cdroid.Libbinder.Parcel.{
  Status, no_error, not_enough_data, Parcel, FlatBinderObject, Access, fault, done, ◌>>=◌,
  object_at, object_size, pad_size, sub32, set_data_position,
}
use cdroid.Memory.{read32, read16s}
use cdroid.Prelude.{
  ℕ, zero, suc, ◌+◌, ◌*◌, ◌-◌, ◌%◌, ◌^◌, Bool, not, ◌&&◌, List, [], ◌∷◌, Option, none, some, length,
  ltb, leb, ◌==◌, if◌then◌else◌, get_or,
}

-- The next `n` bytes are read.
abbrev pub load_at : {A : Type 0} → Parcel → ℕ → ℕ → A → Access A
load_at p a n x = if leb (a + n) p.data_capacity then done x else fault

unfoldable pub read_inplace : Parcel → ℕ → Option ℕ × Parcel
read_inplace p len =
    let end = (p.data_pos + pad_size len) % 2 ^ 32 in
    if leb p.data_pos end && leb end p.data_size
    then (some p.data_pos, record p { data_pos = end })
    else (none, p)

unfoldable pub bytes_at : (ℕ → ℕ) → ℕ → ℕ → List ℕ
bytes_at mem a zero = []
bytes_at mem a (suc n) = mem a ∷ bytes_at mem (a + 1) n

abbrev pub with_status : ℕ → Option ℕ × Parcel → Access ((Status × List ℕ) × Parcel)
with_status len (some at, p) = load_at p at len ((no_error, bytes_at p.bytes at len), p)
with_status len (none, p) = done ((not_enough_data, []), p)

-- read; the bytes are those that the caller's buffer gets.
unfoldable pub read : Parcel → ℕ → Access ((Status × List ℕ) × Parcel)
read p len = with_status len (read_inplace p len)

-- readAligned for 4 bytes; readInt32() gives 0 where there is nothing.
unfoldable pub read_aligned32 : Parcel → Access (Option ℕ × Parcel)
read_aligned32 p =
    let end = (p.data_pos + 4) % 2 ^ 32 in
    if leb end p.data_size
    then load_at p p.data_pos 4 (some (read32 p.bytes p.data_pos), record p { data_pos = end })
    else done (none, p)

abbrev pub or_zero : Option ℕ × Parcel → ℕ × Parcel
or_zero (some n, p) = (n, p)
or_zero (none, p) = (0, p)

unfoldable pub read_int32 : Parcel → Access (ℕ × Parcel)
read_int32 p = read_aligned32 p >>= λ r. done (or_zero r)

unfoldable pub read_int64 : Parcel → Access (ℕ × Parcel)
read_int64 p =
    let end = (p.data_pos + 8) % 2 ^ 32 in
    if leb end p.data_size
    then load_at p p.data_pos 8 (
      read32 p.bytes p.data_pos + 2 ^ 32 * read32 p.bytes (p.data_pos + 4),
      record p { data_pos = end },
    )
    else done (0, p)

-- memchr(str, 0, avail), as an offset.
unfoldable pub find_nul : (ℕ → ℕ) → ℕ → ℕ → Option ℕ
find_nul mem a zero = none
find_nul mem a (suc n) =
    let rest = find_nul mem (a + 1) n in
    if mem a == 0 then some 0 else elim rest [ none ↦ none | some i ↦ some (suc i) ]

-- The place of the string and its length.
unfoldable pub read_c_string : Parcel → Access (Option (ℕ × ℕ) × Parcel)
read_c_string p =
    let avail = sub32 p.data_size p.data_pos in
    if avail == 0
    then done (none, p)
    else if not (leb (p.data_pos + avail) p.data_capacity)
    then fault
    else elim (find_nul p.bytes p.data_pos avail) [
      | none ↦ done (none, p)
      | some len ↦ done (
        some (p.data_pos, len),
        record p { data_pos = (p.data_pos + pad_size (len + 1)) % 2 ^ 32 },
      )
    ]

-- size >= 0 && size < INT32_MAX
abbrev pub fits_int : ℕ → Bool
fits_int size = ltb size (2 ^ 31 - 1)

abbrev pub with_length : ℕ → Option ℕ × Parcel → Option (ℕ × ℕ) × Parcel
with_length len (some at, p) = (some (at, len), p)
with_length len (none, p) = (none, p)

-- The place of the units and their number.
unfoldable pub read_string16_inplace : Parcel → Access (Option (ℕ × ℕ) × Parcel)
read_string16_inplace p = read_int32 p >>= λ r.
    if not (fits_int r.0)
    then done (none, r.1)
    else done (with_length r.0 (read_inplace r.1 ((r.0 + 1) * 2 % 2 ^ 32)))

-- readString16; String16(str, len) copies the units.
unfoldable pub read_string16 : Parcel → Access (List ℕ × Parcel)
read_string16 p = read_string16_inplace p >>= λ r. elim r.0 [
  | some s ↦ load_at r.1 s.0 (s.1 * 2) (read16s r.1.bytes s.0 s.1, r.1)
  | none ↦ done ([], r.1)
]

abbrev pub copy_bytes : ℕ → Option ℕ × Parcel → Access (List ℕ × Parcel)
copy_bytes len (some at, p) = load_at p at len (bytes_at p.bytes at len, p)
copy_bytes len (none, p) = done ([], p)

-- readString8; String8(str, size) copies the bytes.
unfoldable pub read_string8 : Parcel → Access (List ℕ × Parcel)
read_string8 p = read_int32 p >>= λ r.
    if fits_int r.0 && not (r.0 == 0)
    then copy_bytes r.0 (read_inplace r.1 (r.0 + 1))
    else done ([], r.1)

-- EX_HAS_REPLY_HEADER is -128.
unfoldable pub read_exception_code : Parcel → Access (ℕ × Parcel)
read_exception_code p = read_int32 p >>= λ r.
    if r.0 == 2 ^ 32 - 128
    then (read_int32 r.1 >>= λ s. done (0, set_data_position s.1 ((r.1.data_pos + s.0) % 2 ^ 32)))
    else done r

-- The first search, forward from the hint; `n` counts the entries from `opos` to the last one.
unfoldable pub search_forward : List ℕ → ℕ → ℕ → ℕ → ℕ
search_forward objs pos opos zero = opos
search_forward objs pos opos (suc n) =
    let on = search_forward objs pos (opos + 1) n in
    if ltb (get_or objs opos 0) pos then on else opos

unfoldable pub search_backward : List ℕ → ℕ → ℕ → ℕ
search_backward objs pos zero = zero
search_backward objs pos (suc opos) =
    let back = search_backward objs pos opos in
    if ltb pos (get_or objs (suc opos) 0) then back else suc opos

-- The index of the entry at `pos`, by both searches.
unfoldable pub find_object : List ℕ → ℕ → ℕ → Option ℕ
find_object objs pos hint =
    let last = length objs - 1 in
    let fwd = if ltb hint (length objs) then search_forward objs pos hint (last - hint) else last in
    let back = search_backward objs pos fwd in
    if length objs == 0
    then none
    else if get_or objs fwd 0 == pos
    then some fwd
    else if get_or objs back 0 == pos
    then some back
    else none

-- The object is one that was entered, or null where null is not entered.
abbrev pub look_up : Parcel → ℕ → FlatBinderObject → Bool → Option FlatBinderObject × Parcel
look_up p pos obj null_meta_data =
    if not null_meta_data && obj.cookie == 0 && obj.binder == 0
    then (some obj, p)
    else elim (find_object p.objects pos p.next_object_hint) [
      | some opos ↦ (some obj, record p { next_object_hint = opos + 1 })
      | none ↦ (none, p)
    ]

unfoldable pub read_object : Parcel → Bool → Access (Option FlatBinderObject × Parcel)
read_object p null_meta_data =
    let end = (p.data_pos + object_size) % 2 ^ 32 in
    if leb end p.data_size
    then (object_at p p.data_pos >>= λ obj.
        done (look_up (record p { data_pos = end }) p.data_pos obj null_meta_data))
    else done (none, p)
