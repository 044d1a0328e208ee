-- ===== src/ServiceManager/Bio.antt =====
-- The messages of src/cmds/servicemanager/binder.c: struct binder_io and the bio_ functions. `data` is
-- the place in the buffer, from data0 on; `offs` are the entries from offs0 on; a null pointer is
-- `none`. Sizes are uint32_t.
pub mod Items
pub mod Writing
pub mod Reading
pub mod Limits
pub mod RoundTrip
use cdroid.Prelude.{
  ◌||◌, length, ℕ, zero, suc, ◌+◌, ◌-◌, ◌*◌, ◌/◌, ◌%◌, ◌^◌, Bool, true, false, List, [], ◌∷◌, ◌++◌,
  Option, none, some, ◌==◌, ltb, leb, if◌then◌else◌,
}
use cdroid.Memory.{write32, write16s, read32}

-- `overflow` is BIO_F_OVERFLOW, `shared` BIO_F_SHARED.
pub record BinderIo : Type 0 where
  pub data_at : ℕ
  pub offs : List ℕ
  pub data_avail : ℕ
  pub offs_avail : ℕ
  pub overflow : Bool
  pub shared : Bool
  pub memory : ℕ → ℕ

-- struct binder_txn, with the buffers that `data` and `offs` point to.
pub record BinderTxn : Type 0 where
  pub target : ℕ
  pub code : ℕ
  pub sender_euid : ℕ
  pub data_size : ℕ
  pub offs_size : ℕ
  pub data_bytes : ℕ → ℕ
  pub offs_entries : List ℕ

-- BINDER_TYPE_BINDER, BINDER_TYPE_HANDLE, 0x7f | FLAT_BINDER_FLAG_ACCEPTS_FDS, sizeof(struct
-- binder_object)
abbrev pub type_binder : ℕ
type_binder = 0x73622a85

abbrev pub type_handle : ℕ
type_handle = 0x73682a85

abbrev pub object_flags : ℕ
object_flags = 0x17f

abbrev pub object_size : ℕ
object_size = 16

-- (size + 3) & (~3)
abbrev pub round4 : ℕ → ℕ
round4 size = (size + 3) % 2 ^ 32 / 4 * 4

unfoldable pub bio_init_from_txn : BinderTxn → BinderIo
bio_init_from_txn txn = record {
  data_at = 0;
  offs = txn.offs_entries;
  data_avail = txn.data_size;
  offs_avail = txn.offs_size / 4;
  overflow = false;
  shared = true;
  memory = txn.data_bytes;
}

-- `bio` is what was in the structure before.
unfoldable pub bio_init : BinderIo → ℕ → ℕ → BinderIo
bio_init bio maxdata maxoffs =
    let n = maxoffs * 4 % 2 ^ 32 in
    if ltb maxdata n
    then record bio { overflow = true; shared = false; data_avail = 0; offs_avail = 0 }
    else record bio {
      data_at = 0;
      offs = [];
      data_avail = maxdata - n;
      offs_avail = maxoffs;
      overflow = false;
      shared = false;
    }

-- Room for `size` bytes; also bio_get, but for what it leaves behind when there is none.
abbrev pub advance : BinderIo → ℕ → BinderIo
advance bio size = record bio { data_at = bio.data_at + size; data_avail = bio.data_avail - size }

unfoldable pub bio_alloc : BinderIo → ℕ → Option ℕ × BinderIo
bio_alloc bio size =
    if ltb bio.data_avail (round4 size)
    then (none, record bio { overflow = true })
    else (some bio.data_at, advance bio (round4 size))

-- The object just allocated, with its entry among the offsets.
abbrev pub add_offset : Option ℕ × BinderIo → Option ℕ × BinderIo
add_offset (none, b) = (none, record b { overflow = true })
add_offset (some p, b) =
    if b.offs_avail == 0
    then (none, record b { overflow = true })
    else (some p, record b { offs_avail = b.offs_avail - 1; offs = b.offs ++ p ∷ [] })

unfoldable pub bio_alloc_obj : BinderIo → Option ℕ × BinderIo
bio_alloc_obj bio = add_offset (bio_alloc bio object_size)

-- A write through the pointer that bio_alloc returned, if it is not null.
abbrev pub fill : ((ℕ → ℕ) → ℕ → ℕ → ℕ) → Option ℕ × BinderIo → BinderIo
fill write (none, b) = b
fill write (some p, b) = record b { memory = write b.memory p }

unfoldable pub bio_put_uint32 : BinderIo → ℕ → BinderIo
bio_put_uint32 bio n = fill (λ mem p. write32 mem p n) (bio_alloc bio 4)

-- The fields of struct binder_object at `p`.
abbrev pub fill_object : ℕ → ℕ → (ℕ → ℕ) → ℕ → ℕ → ℕ
fill_object type ptr mem p =
    write32 (write32 (write32 (write32 mem (p + 4) object_flags) p type) (p + 8) ptr) (p + 12) 0

unfoldable pub bio_put_obj : BinderIo → ℕ → BinderIo
bio_put_obj bio ptr = fill (fill_object type_binder ptr) (bio_alloc_obj bio)

unfoldable pub bio_put_ref : BinderIo → ℕ → BinderIo
bio_put_ref bio ptr =
    if ptr == 0
    then fill (fill_object type_handle ptr) (bio_alloc bio object_size)
    else fill (fill_object type_handle ptr) (bio_alloc_obj bio)

-- MAX_BIO_SIZE / sizeof(uint16_t)
abbrev pub max_units : ℕ
max_units = 536870912

-- The units before the NUL that ends a string.
abbrev pub until_nul : List ℕ → List ℕ
until_nul [] = []
until_nul (u ∷ us) = if u == 0 then [] else u ∷ until_nul us

-- The units of a string and its NUL, behind their number; for str and for the widened bytes of _str.
unfoldable pub put_units : BinderIo → List ℕ → BinderIo
put_units bio str =
    let us = until_nul str in
    if leb max_units (length us)
    then bio_put_uint32 bio 0xffffffff
    else fill (λ mem p. write16s mem p (us ++ 0 ∷ []))
        (bio_alloc (bio_put_uint32 bio (length us)) ((length us + 1) * 2 % 2 ^ 32))

unfoldable pub bio_put_string16 : BinderIo → Option (List ℕ) → BinderIo
bio_put_string16 bio none = bio_put_uint32 bio 0xffffffff
bio_put_string16 bio (some str) = put_units bio str

unfoldable pub bio_put_string16_x : BinderIo → Option (List ℕ) → BinderIo
bio_put_string16_x bio none = bio_put_uint32 bio 0xffffffff
bio_put_string16_x bio (some str) = put_units bio str

unfoldable pub bio_get : BinderIo → ℕ → Option ℕ × BinderIo
bio_get bio size =
    if ltb bio.data_avail (round4 size)
    then (none, record bio { data_avail = 0; overflow = true })
    else (some bio.data_at, advance bio (round4 size))

-- What is read through the pointer that bio_get returned, 0 if it is null.
abbrev pub load : Option ℕ × BinderIo → ℕ × BinderIo
load (none, b) = (0, b)
load (some p, b) = (read32 b.memory p, b)

unfoldable pub bio_get_uint32 : BinderIo → ℕ × BinderIo
bio_get_uint32 bio = load (bio_get bio 4)

-- The place of the units, their number, and the rest.
abbrev pub get_units : ℕ × BinderIo → Option ℕ × ℕ × BinderIo
get_units (len, b) = let r = bio_get b ((len + 1) % 2 ^ 32 * 2 % 2 ^ 32) in (r.0, len, r.1)

unfoldable pub bio_get_string16 : BinderIo → Option ℕ × ℕ × BinderIo
bio_get_string16 bio = get_units (bio_get_uint32 bio)

-- Whether one of the first n offsets is `off`.
abbrev pub has_offset : ℕ → ℕ → List ℕ → Bool
has_offset zero off os = false
has_offset (suc n) off [] = false
has_offset (suc n) off (o ∷ os) = (o == off) || has_offset n off os

unfoldable pub bio_get_obj : BinderIo → Option ℕ × BinderIo
bio_get_obj bio =
    if has_offset bio.offs_avail bio.data_at bio.offs
    then bio_get bio object_size
    else (none, record bio { data_avail = 0; overflow = true })

-- The reference in an object, null for one of another type.
abbrev pub load_ref : Option ℕ × BinderIo → ℕ × BinderIo
load_ref (none, b) = (0, b)
load_ref (some p, b) =
    if read32 b.memory p == type_handle then (read32 b.memory (p + 8), b) else (0, b)

unfoldable pub bio_get_ref : BinderIo → ℕ × BinderIo
bio_get_ref bio = load_ref (bio_get_obj bio)

-- The type, the pointer and the cookie that the driver gives the receiver for an object of this type
-- and pointer (the cookie that is sent is 0). It takes them from its tables of nodes and references, so
-- this is a parameter.
abbrev pub Translation : Type 0
Translation = ℕ → ℕ → ℕ × ℕ × ℕ

abbrev pub translate_object : Translation → (ℕ → ℕ) → ℕ → ℕ → ℕ
translate_object give mem p =
    let new = give (read32 mem p) (read32 mem (p + 8)) in
    write32 (write32 (write32 mem p new.0) (p + 8) new.1) (p + 12) new.2

-- The objects at these offsets, one after the other.
unfoldable pub translate_objects : Translation → List ℕ → (ℕ → ℕ) → ℕ → ℕ
translate_objects give [] mem = mem
translate_objects give (o ∷ os) mem = translate_objects give os (translate_object give mem o)

-- The transaction that binder_call sends, as the receiver sees it if the driver delivers it: the
-- driver copies the buffers, rewrites the objects at the offsets and adds the sender.
unfoldable pub call_txn : Translation → BinderIo → ℕ → ℕ → ℕ → BinderTxn
call_txn give msg target code sender_euid = record {
  target = target;
  code = code;
  sender_euid = sender_euid;
  data_size = msg.data_at;
  offs_size = length msg.offs * 4;
  data_bytes = translate_objects give msg.offs msg.memory;
  offs_entries = msg.offs;
}
