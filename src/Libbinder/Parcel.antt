-- ===== src/Libbinder/Parcel.antt =====
-- The state of a Parcel of src/lib/binder/Parcel.cpp, and how it gets its memory. `bytes` is the
-- memory at mData, of which mDataCapacity bytes are the parcel's; size_t has 32 bits. What is done to the
-- references of the objects in a parcel is told by `refs`, the newest first.
pub mod Growth
pub mod Writing
pub mod Reading
pub mod Whole
pub mod Sound
pub mod Bytes
pub mod Effects
pub mod Items
pub mod Stored
pub mod Fetched
pub mod RoundTrip
pub mod Received
pub mod Hint
pub mod Looking
pub mod Flat
pub mod Entering
pub mod Objects
pub mod Cutting
pub mod Dropping
pub mod Inside
pub mod Calls
pub mod Limits
use cdroid.Memory.{read32}
use cdroid.Prelude.{
  ℕ, ◌+◌, ◌*◌, ◌/◌, ◌%◌, ◌^◌, ◌-◌, Bool, true, false, List, [], ◌∷◌, ltb, leb, if◌then◌else◌,
}

-- status_t: NO_ERROR and the negative codes that Parcel returns.
pub data Status : Type 0 where
  no_error no_memory bad_value not_enough_data fds_not_allowed bad_type : Status

-- struct flat_binder_object; `binder` is the union with `handle`.
pub record FlatBinderObject : Type 0 where
  pub type : ℕ
  pub flags : ℕ
  pub binder : ℕ
  pub cookie : ℕ

-- acquire_object, release_object, and the call of mOwner.
pub data RefCall : Type 0 where
  acquire_object : FlatBinderObject → RefCall
  release_object : FlatBinderObject → RefCall
  owner_released : RefCall

-- `has_data` says that mData is not null, `owner` that mOwner is not null; `objects` are the
-- mObjectsSize entries of mObjects, and `objects_room` is how many the memory there has room for.
pub record Parcel : Type 0 where
  pub error : Status
  pub has_data : Bool
  pub bytes : ℕ → ℕ
  pub data_size : ℕ
  pub data_capacity : ℕ
  pub data_pos : ℕ
  pub objects : List ℕ
  pub objects_capacity : ℕ
  pub objects_room : ℕ
  pub next_object_hint : ℕ
  pub fds_known : Bool
  pub has_fds : Bool
  pub allow_fds : Bool
  pub owner : Bool
  pub refs : List RefCall

-- `fault` is an access outside the memory of the parcel.
pub data Access {ℓ} (A : Type ℓ) : Type ℓ where
  fault : Access A
  done : A → Access A

infixl 5 ◌>>=◌
abbrev pub ◌>>=◌ {ℓ κ} : {A : Type ℓ} {B : Type κ} → Access A → (A → Access B) → Access B
fault >>= rest = fault
done x >>= rest = rest x

-- The allocator: whether it has that many bytes, and what new memory holds.
pub record Heap : Type 0 where
  pub room : ℕ → Bool
  pub junk : ℕ → ℕ

-- sizeof(flat_binder_object), BINDER_TYPE_FD, PAD_SIZE, and a - b in a size_t.
abbrev pub object_size : ℕ
object_size = 16

abbrev pub type_fd : ℕ
type_fd = 0x66642a85

abbrev pub pad_size : ℕ → ℕ
pad_size s = (s + 3) % 2 ^ 32 / 4 * 4

abbrev pub sub32 : ℕ → ℕ → ℕ
sub32 a b = (a + (2 ^ 32 - b % 2 ^ 32)) % 2 ^ 32

-- The object at an offset.
unfoldable pub object_at : Parcel → ℕ → Access FlatBinderObject
object_at p off =
    if leb (off + object_size) p.data_capacity
    then done (record {
      type = read32 p.bytes off;
      flags = read32 p.bytes (off + 4);
      binder = read32 p.bytes (off + 8);
      cookie = read32 p.bytes (off + 12);
    })
    else fault

-- initState; the references are no part of the parcel.
abbrev pub init_state : List RefCall → Parcel
init_state refs = record {
  error = no_error;
  has_data = false;
  bytes = λ _. 0;
  data_size = 0;
  data_capacity = 0;
  data_pos = 0;
  objects = [];
  objects_capacity = 0;
  objects_room = 0;
  next_object_hint = 0;
  fds_known = true;
  has_fds = false;
  allow_fds = true;
  owner = false;
  refs = refs;
}

unfoldable pub data_size : Parcel → ℕ
data_size p = if ltb p.data_pos p.data_size then p.data_size else p.data_pos

unfoldable pub data_avail : Parcel → ℕ
data_avail p = sub32 (data_size p) p.data_pos

unfoldable pub set_data_position : Parcel → ℕ → Parcel
set_data_position p pos = record p { data_pos = pos; next_object_hint = 0 }
