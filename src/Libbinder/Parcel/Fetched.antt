-- ===== src/Libbinder/Parcel/Fetched.antt =====
-- The items that lie in a parcel of src/lib/binder/Parcel.cpp are read.
use cdroid.Libbinder.Parcel.Items.{
  Item, word, text, chars, kind_of, read_item, read_items, IsItem, item_size, total_size, Lies,
  LieAll,
}
use cdroid.Libbinder.Parcel.Bytes.{find_nul_lem}
use cdroid.Libbinder.Parcel.Reading.{
  fits_int, read_string16_inplace, read_inplace, read_aligned32, read_int32, read_c_string,
  read_string16,
}
use cdroid.Libbinder.Parcel.{false, sub32, true, leb, Parcel, done, pad_size}
use cdroid.Memory.{read32}
use cdroid.Prelude.{
  ◌==◌, ◌-◌, map, sym, ◌%◌, refl, ◌≤◌, ℕ, ◌≡◌, ◌<◌, ◌+◌, ◌*◌, ◌^◌, arith, ap, ◌∙◌, subst, some,
  List, [], ◌∷◌, All, length,
}

-- A parcel whose data behind the position is there.
pub record IsReady (p : Parcel) (n : ℕ) : Type 0 where
  pub enough : p.data_pos + n ≤ p.data_size
  pub held : p.data_size ≤ p.data_capacity
  pub few : p.data_size < 2 ^ 30

-- A read moves the position over the item, and changes no byte.
record Read (p : Parcel) (n : ℕ) (q : Parcel) : Type 0 where
  moved : q.data_pos ≡ p.data_pos + n
  same_bytes : q.bytes ≡ p.bytes
  same_size : q.data_size ≡ p.data_size
  same_capacity : q.data_capacity ≡ p.data_capacity

read_word :
    (p : Parcel)
    → IsReady p 4
    → read_int32 p ≡ done (read32 p.bytes p.data_pos, record p { data_pos = p.data_pos + 4 })
unfolding read_int32 read_aligned32
read_word p v =
    let end : (p.data_pos + 4) % 2 ^ 32 ≡ p.data_pos + 4 = omega (arith, v.enough, v.few) in
    let there : leb (p.data_pos + 4) p.data_size ≡ true = ground (arith, v.enough) in
    let held : leb (p.data_pos + 4) p.data_capacity ≡ true = ground (arith, v.enough, v.held) in
    rw (end, there, held) refl

read_inplace_ok :
    (p : Parcel) (len : ℕ)
    → IsReady p (pad_size len)
    → read_inplace p len ≡ (some p.data_pos, record p { data_pos = p.data_pos + pad_size len })
unfolding read_inplace
read_inplace_ok p len v =
    let end : (p.data_pos + pad_size len) % 2 ^ 32 ≡ p.data_pos + pad_size len =
      omega (arith, v.enough, v.few) in
    let on : leb p.data_pos (p.data_pos + pad_size len) ≡ true = ground arith in
    let there : leb (p.data_pos + pad_size len) p.data_size ≡ true = ground (arith, v.enough) in
    rw (end, on, there) refl

-- The item that lies at the position is read.
abbrev Gets : Parcel → Item → Type 0
Gets p i = (q : Parcel) × (read_item p (kind_of i) ≡ done (i, q)) × Read p (item_size i) q

get_word : (p : Parcel) (n : ℕ) → IsReady p 4 → read32 p.bytes p.data_pos ≡ n → Gets p (word n)
unfolding read_item
get_word p n v l = (
  record p { data_pos = p.data_pos + 4 },
  rw (read_word p v) (ap (λ n. done (word n, record p { data_pos = p.data_pos + 4 })) l),
  record { moved = refl; same_bytes = refl; same_size = refl; same_capacity = refl },
)

read_units :
    (p : Parcel) (us : List ℕ)
    → IsReady p (item_size (text us))
    → read32 p.bytes p.data_pos ≡ length us
    → read_string16_inplace p
      ≡ done (
        some (p.data_pos + 4, length us),
        record p { data_pos = p.data_pos + 4 + pad_size (2 * length us + 2) },
      )
unfolding read_string16_inplace
read_units p us v number =
    let few : length us * 2 < 2 ^ 30 = omega (arith, v.enough, v.few) in
    let q = record p { data_pos = p.data_pos + 4 } in
    let word =
      read_word p (record { enough = omega (arith, v.enough); held = v.held; few = v.few }) in
    let len : (length us + 1) * 2 % 2 ^ 32 ≡ 2 * length us + 2 = omega (arith, few) in
    let fits : fits_int (length us) ≡ true = ground (arith, few) in
    let place =
      read_inplace_ok q (2 * length us + 2)
        (record { enough = omega (arith, v.enough, few); held = v.held; few = v.few }) in
    let counted : read_int32 p ≡ done (length us, q) = word ∙ ap (λ n. done (n, q)) number in
    rw (counted, fits, len, place) refl

get_text :
    (p : Parcel) (us : List ℕ)
    → IsReady p (item_size (text us))
    → Lies p.bytes p.data_pos (text us)
    → Gets p (text us)
unfolding read_item read_string16
get_text p us v l =
    let few : length us * 2 < 2 ^ 30 = omega (arith, v.enough, v.few) in
    let q = record p { data_pos = p.data_pos + 4 + pad_size (2 * length us + 2) } in
    let held : leb (p.data_pos + 4 + length us * 2) p.data_capacity ≡ true =
      ground (arith, v.enough, v.held, few) in
    (
      q,
      rw (read_units p us v l.0, held) (ap (λ xs. done (text xs, q)) l.1),
      record {
        moved = omega (arith, few);
        same_bytes = refl;
        same_size = refl;
        same_capacity = refl;
      },
    )

get_chars :
    (p : Parcel) (bs : List ℕ)
    → IsReady p (item_size (chars bs))
    → All (λ b. (0 < b) × (b < 256)) bs
    → Lies p.bytes p.data_pos (chars bs)
    → Gets p (chars bs)
unfolding read_item read_c_string
get_chars p bs v f l =
    let few : length bs < 2 ^ 30 = omega (arith, v.enough, v.few) in
    let avail : sub32 p.data_size p.data_pos ≡ p.data_size - p.data_pos =
      omega (arith, v.enough, v.few) in
    let some_left : (p.data_size - p.data_pos == 0) ≡ false = ground (arith, v.enough, few) in
    let held : leb (p.data_pos + (p.data_size - p.data_pos)) p.data_capacity ≡ true =
      ground (arith, v.enough, v.held) in
    let nul =
      find_nul_lem bs p.bytes p.data_pos (p.data_size - p.data_pos) f l.0 l.1
        (omega (arith, v.enough)) in
    let end : (p.data_pos + pad_size (length bs + 1)) % 2 ^ 32 ≡ p.data_pos + item_size (chars bs) =
      omega (arith, v.enough, v.few) in
    let q = record p { data_pos = p.data_pos + item_size (chars bs) } in
    (
      q,
      rw (avail, some_left, held, nul, end) (ap (λ xs. done (chars xs, q)) l.0),
      record { moved = refl; same_bytes = refl; same_size = refl; same_capacity = refl },
    )

read_item_lem :
    (p : Parcel) (i : Item)
    → IsReady p (item_size i)
    → IsItem i
    → Lies p.bytes p.data_pos i
    → Gets p i
read_item_lem p (word n) v f l = get_word p n v l
read_item_lem p (text us) v f l = get_text p us v l
read_item_lem p (chars bs) v f l = get_chars p bs v f l

pub read_items_lem :
    (is : List Item) (p : Parcel)
    → IsReady p (total_size is)
    → All IsItem is
    → LieAll p.bytes p.data_pos is
    → (q : Parcel) × (read_items p (map kind_of is) ≡ done (is, q))
      × (q.data_pos ≡ p.data_pos + total_size is)
unfolding read_items
read_items_lem [] p v f l = (p, refl, omega arith)
read_items_lem (i ∷ is) p v f l =
    let (q, e, r) =
      read_item_lem p i (record { enough = omega (arith, v.enough); held = v.held; few = v.few })
        f.0 l.0 in
    let (t, e', at) =
      read_items_lem is q
        (record {
          enough = omega (arith, v.enough, r.moved, r.same_size);
          held = omega (arith, v.held, r.same_size, r.same_capacity);
          few = omega (arith, v.few, r.same_size);
        })
        f.1
        (subst (λ m. LieAll m q.data_pos is) (sym r.same_bytes)
          (subst (λ pos. LieAll p.bytes pos is) (sym r.moved) l.1)) in
    (t, rw (e, e') refl, omega (arith, at, r.moved))
