-- ===== src/Libbinder/Parcel/Items.antt =====
-- Items that a client writes to a parcel of src/lib/binder/Parcel.cpp, and reads from it.
use cdroid.Libbinder.Parcel.Growth.{is_ok}
use cdroid.Libbinder.Parcel.Writing.{write_c_string, write_string16, write_int32}
use cdroid.Libbinder.Parcel.Reading.{bytes_at, read_int32, read_c_string, read_string16}
use cdroid.Libbinder.Parcel.{Status, no_error, Parcel, Heap, Access, done, ◌>>=◌}
use cdroid.Memory.{read32, read16s}
use cdroid.Prelude.{
  ℕ, ◌≡◌, ◌<◌, ◌+◌, ◌*◌, ◌/◌, ◌^◌, if◌then◌else◌, some, none, Option, List, [], ◌∷◌, All, length,
}

-- A 32-bit word, a string of 16-bit units, or a string of bytes.
pub data Item : Type 0 where
  word : ℕ → Item
  text : List ℕ → Item
  chars : List ℕ → Item

pub data Kind : Type 0 where
  a_word a_text some_chars : Kind

abbrev pub kind_of : Item → Kind
kind_of (word _) = a_word
kind_of (text _) = a_text
kind_of (chars _) = some_chars

unfoldable pub write_item : Heap → Parcel → Item → Access (Status × Parcel)
write_item h p (word n) = write_int32 h p n
write_item h p (text us) = write_string16 h p (some us)
write_item h p (chars bs) = write_c_string h p bs

-- The writer stops at the first failure.
unfoldable pub write_items : Heap → Parcel → List Item → Access (Status × Parcel)
write_items h p [] = done (no_error, p)
write_items h p (i ∷ is) =
    write_item h p i >>= λ r. if is_ok r.0 then write_items h r.1 is else done r

abbrev as_chars : Option (ℕ × ℕ) × Parcel → Item × Parcel
as_chars (none, p) = (chars [], p)
as_chars (some s, p) = (chars (bytes_at p.bytes s.0 s.1), p)

unfoldable pub read_item : Parcel → Kind → Access (Item × Parcel)
read_item p a_word = read_int32 p >>= λ r. done (word r.0, r.1)
read_item p a_text = read_string16 p >>= λ r. done (text r.0, r.1)
read_item p some_chars = read_c_string p >>= λ r. done (as_chars r)

unfoldable pub read_items : Parcel → List Kind → Access (List Item × Parcel)
read_items p [] = done ([], p)
read_items p (k ∷ ks) = read_item p k >>= λ r. read_items r.1 ks >>= λ s. done (r.0 ∷ s.0, s.1)

abbrev pub IsItem : Item → Type 0
IsItem (word n) = n < 2 ^ 32
IsItem (text us) = All (λ u. u < 2 ^ 16) us
IsItem (chars bs) = All (λ b. (0 < b) × (b < 256)) bs

-- What an item takes in the parcel, padded to words.
abbrev pub item_size : Item → ℕ
item_size (word _) = 4
item_size (text us) = 4 + (2 * length us + 5) / 4 * 4
item_size (chars bs) = (length bs + 4) / 4 * 4

abbrev pub total_size : List Item → ℕ
total_size [] = 0
total_size (i ∷ is) = item_size i + total_size is

abbrev pub Lies : (ℕ → ℕ) → ℕ → Item → Type 0
Lies mem pos (word n) = read32 mem pos ≡ n
Lies mem pos (text us) = (read32 mem pos ≡ length us) × (read16s mem (pos + 4) (length us) ≡ us)
Lies mem pos (chars bs) = (bytes_at mem pos (length bs) ≡ bs) × (mem (pos + length bs) ≡ 0)

abbrev pub LieAll : (ℕ → ℕ) → ℕ → List Item → Type 0
LieAll mem pos [] = Unit {0}
LieAll mem pos (i ∷ is) = Lies mem pos i × LieAll mem (pos + item_size i) is
