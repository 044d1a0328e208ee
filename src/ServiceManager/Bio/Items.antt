-- ===== src/ServiceManager/Bio/Items.antt =====
-- What a message consists of, and how it lies in the buffer of a struct binder_io.
use cdroid.Prelude.{
  ◌++◌, Option, ℕ, ◌+◌, ◌*◌, ◌%◌, ◌^◌, ◌<◌, ◌≡◌, List, [], ◌∷◌, some, none, true, All, length,
}
use cdroid.Memory.{read16, read32, read16s}
use cdroid.ServiceManager.Bio.{
  Translation, bio_get_ref, has_offset, object_size, bio_get_string16, bio_put_ref, max_units,
  type_handle, round4, bio_put_string16, bio_get_uint32, BinderIo, bio_put_uint32,
}

pub data Item : Type 0 where
  word : ℕ → Item
  text : List ℕ → Item
  handle : ℕ → Item

pub data Kind : Type 0 where
  a_word a_text a_handle : Kind

abbrev pub kind_of : Item → Kind
kind_of (word n) = a_word
kind_of (text us) = a_text
kind_of (handle p) = a_handle

abbrev pub put_item : BinderIo → Item → BinderIo
put_item w (word n) = bio_put_uint32 w n
put_item w (text us) = bio_put_string16 w (some us)
put_item w (handle p) = bio_put_ref w p

abbrev pub put_items : BinderIo → List Item → BinderIo
put_items w [] = w
put_items w (i ∷ is) = put_items (put_item w i) is

-- The units that a reader finds at a place.
abbrev pub units_at : BinderIo → Option ℕ → ℕ → List ℕ
units_at b none len = []
units_at b (some p) len = read16s b.memory p len

abbrev pub get_item : BinderIo → Kind → Item × BinderIo
get_item r a_word = let (n, b) = bio_get_uint32 r in (word n, b)
get_item r a_text = let (ptr, len, b) = bio_get_string16 r in (text (units_at b ptr len), b)
get_item r a_handle = let (p, b) = bio_get_ref r in (handle p, b)

abbrev pub get_items : BinderIo → List Kind → List Item × BinderIo
get_items r [] = ([], r)
get_items r (k ∷ ks) = let (i, b) = get_item r k in let (is, c) = get_items b ks in (i ∷ is, c)

-- Values that fit their types; a string has no NUL and is shorter than MAX_BIO_SIZE allows, a reference
-- is not null.
abbrev pub IsItem : Item → Type 0
IsItem (word n) = n < 2 ^ 32
IsItem (text us) = All (λ u. u < 2 ^ 16) us × All (λ u. 0 < u) us × (length us < max_units)
IsItem (handle p) = (0 < p) × (p < 2 ^ 32)

abbrev pub item_size : Item → ℕ
item_size (word n) = 4
item_size (text us) = 4 + round4 ((length us + 1) * 2 % 2 ^ 32)
item_size (handle p) = object_size

-- The item as the driver delivers it.
abbrev pub delivered : Translation → Item → Item
delivered give (handle p) = handle (give type_handle p).1
delivered give i = i

-- The driver delivers a reference as one of the receiver, not null and not an object of its own.
abbrev pub IsDelivered : Translation → Item → Type 0
IsDelivered give (handle p) =
    ((give type_handle p).0 ≡ type_handle) × IsItem (handle (give type_handle p).1)
IsDelivered give i = Unit

-- The offsets of the objects among the items from `pos` on.
abbrev pub own_place : ℕ → Item → List ℕ
own_place pos (handle p) = pos ∷ []
own_place pos i = []

abbrev pub places : ℕ → List Item → List ℕ
places pos [] = []
places pos (i ∷ is) = own_place pos i ++ places (pos + item_size i) is

-- The item lies at `pos`.
abbrev pub Lies : (ℕ → ℕ) → List ℕ → ℕ → Item → Type 0
Lies mem offs pos (word n) = read32 mem pos ≡ n
Lies mem offs pos (text us) =
    (read32 mem pos ≡ length us)
    × (read16s mem (pos + 4) (length us) ≡ us)
    × (read16 mem (pos + 4 + 2 * length us) ≡ 0)
Lies mem offs pos (handle p) =
    (read32 mem pos ≡ type_handle)
    × (read32 mem (pos + 8) ≡ p)
    × (has_offset (length offs) pos offs ≡ true)

-- These items lie one behind the other, up to `stop`.
abbrev pub LieUpTo : (ℕ → ℕ) → List ℕ → ℕ → List Item → ℕ → Type 0
LieUpTo mem offs pos [] stop = pos ≡ stop
LieUpTo mem offs pos (i ∷ is) stop =
    Lies mem offs pos i × LieUpTo mem offs (pos + item_size i) is stop
