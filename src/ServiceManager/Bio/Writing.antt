-- ===== src/ServiceManager/Bio/Writing.antt =====
-- What the bio_put_ functions leave in the buffer.
use cdroid.Prelude.{
  All, ◌==◌, ==_self, ◌-◌, arith, leb, append-nil, ◌∙◌, ap, sym, subst, ltb, Bool-cases, inr, inl,
  ◌⊎◌, false, ℕ, ◌+◌, ◌*◌, ◌%◌, ◌^◌, ◌<◌, ◌≡◌, refl, List, [], ◌∷◌, ◌++◌, some, none, true, length,
}
use cdroid.Memory.{
  read16-write16s_end, read16s-write16s, read32_same, write16s_below, write32_below, write16s,
  read32-write32, read32,
}
use cdroid.ServiceManager.Bio.{
  until_nul, add_offset, object_flags, bio_alloc_obj, type_handle, bio_put_ref, has_offset,
  fill_object, object_size, fill, max_units, put_units, write32, bio_put_string16, round4, advance,
  bio_alloc, BinderIo, bio_put_uint32,
}
use cdroid.ServiceManager.Bio.Items.{
  own_place, handle, put_item, IsItem, text, item_size, word, Item, Lies,
}

bio_alloc_cases :
    (w : BinderIo) (size : ℕ)
    → (bio_alloc w size ≡ (none, record w { overflow = true }))
      ⊎ (bio_alloc w size ≡ (some w.data_at, advance w (round4 size)))
unfolding bio_alloc
bio_alloc_cases w size = elim (Bool-cases (ltb w.data_avail (round4 size))) [
  | inl e ↦ inl (rw (bio_alloc, e) refl)
  | inr e ↦ inr (rw (bio_alloc, e) refl)
]

-- Behind a write of an item that did not overflow: the item is there, and what was there is kept.
pub record Wrote (w t : BinderIo) (i : Item) : Type 0 where
  pub before : w.overflow ≡ false
  pub place : t.data_at ≡ w.data_at + item_size i
  pub lies : Lies t.memory t.offs w.data_at i
  pub kept : (a : ℕ) → a < w.data_at → t.memory a ≡ w.memory a
  pub grown : t.offs ≡ w.offs ++ own_place w.data_at i

-- A word that is put, with the buffer that it leaves.
abbrev with_word : BinderIo → ℕ → BinderIo
with_word w n = record (advance w 4) { memory = write32 w.memory w.data_at n }

put_uint32_cases :
    (w : BinderIo) (n : ℕ)
    → (bio_put_uint32 w n ≡ record w { overflow = true }) ⊎ (bio_put_uint32 w n ≡ with_word w n)
unfolding bio_put_uint32
put_uint32_cases w n = elim (bio_alloc_cases w 4) [
  | inl e ↦ inl (ap (fill (λ mem p. write32 mem p n)) e)
  | inr e ↦ inr (ap (fill (λ mem p. write32 mem p n)) e)
]

module _ (w : BinderIo) (i : Item) where
  -- The cases of a write, by the buffer that it leaves.
  overflown : (u t : BinderIo) → t ≡ record u { overflow = true } → t.overflow ≡ false → Wrote w t i
  overflown u t e h = let z : true ≡ false = sym (ap (λ b. b.overflow) e) ∙ h in cc

  written :
      (t u : BinderIo)
      → t ≡ u
      → (u.overflow ≡ false → Wrote w u i)
      → t.overflow ≡ false
      → Wrote w t i
  written t u e f h = subst (λ b. Wrote w b i) (sym e) (f (sym (ap (λ b. b.overflow) e) ∙ h))

word-Wrote :
    (w : BinderIo) (n : ℕ)
    → n < 2 ^ 32
    → (bio_put_uint32 w n).overflow ≡ false
    → Wrote w (bio_put_uint32 w n) (word n)
word-Wrote w n small = elim (put_uint32_cases w n) [
  | inl e ↦ overflown w (word n) w (bio_put_uint32 w n) e
  | inr e ↦ written w (word n) (bio_put_uint32 w n) (with_word w n) e (λ h. record {
    before = h;
    place = refl;
    lies = read32-write32 w.memory w.data_at n small;
    kept = λ a l. write32_below w.memory w.data_at n a l;
    grown = sym (append-nil w.offs);
  })
]

-- The string behind its length.
abbrev with_text : BinderIo → List ℕ → BinderIo
with_text w us =
    record (advance (with_word w (length us)) (round4 ((length us + 1) * 2 % 2 ^ 32))) {
      memory = write16s (write32 w.memory w.data_at (length us)) (w.data_at + 4) (us ++ 0 ∷ []);
    }

until_nul-whole : (us : List ℕ) → All (λ u. 0 < u) us → until_nul us ≡ us
until_nul-whole [] h = refl
until_nul-whole (u ∷ us) h = rw (until_nul-whole us h.1) (ground (arith, h.0))

put_text_cases :
    (w : BinderIo) (us : List ℕ)
    → All (λ u. 0 < u) us
    → length us < max_units
    → ((t : BinderIo) × (bio_put_string16 w (some us) ≡ record t { overflow = true }))
      ⊎ (bio_put_string16 w (some us) ≡ with_text w us)
unfolding bio_put_string16 put_units
put_text_cases w us whole small =
    let fits : leb max_units (length us) ≡ false = ground arith in
    let size = (length us + 1) * 2 % 2 ^ 32 in
    let store = fill (λ mem p. write16s mem p (us ++ 0 ∷ [])) in
    let rest = λ (b : BinderIo). store (bio_alloc b size) in
    let step : bio_put_string16 w (some us) ≡ rest (bio_put_uint32 w (length us)) =
      rw (bio_put_string16, put_units, until_nul-whole us whole, fits) refl in
    let full : BinderIo = record w { overflow = true } in
    elim (put_uint32_cases w (length us)) [
      | inl e ↦ elim (bio_alloc_cases full size) [
        | inl f ↦ inl (w, step ∙ ap rest e ∙ ap store f)
        | inr f ↦
            inl (store (some w.data_at, advance w (round4 size)), step ∙ ap rest e ∙ ap store f)
      ]
      | inr e ↦ elim (bio_alloc_cases (with_word w (length us)) size) [
        | inl f ↦ inl (with_word w (length us), step ∙ ap rest e ∙ ap store f)
        | inr f ↦ inr (step ∙ ap rest e ∙ ap store f)
      ]
    ]

text-Wrote :
    (w : BinderIo) (us : List ℕ)
    → IsItem (text us)
    → (bio_put_string16 w (some us)).overflow ≡ false
    → Wrote w (bio_put_string16 w (some us)) (text us)
text-Wrote w us (units, whole, small) = elim (put_text_cases w us whole small) [
  | inl (t, e) ↦ overflown w (text us) t (bio_put_string16 w (some us)) e
  | inr e ↦ written w (text us) (bio_put_string16 w (some us)) (with_text w us) e (λ h.
      let size = write32 w.memory w.data_at (length us) in
      let low = write16s_below (us ++ 0 ∷ []) size (w.data_at + 4) in
      record {
        before = h;
        place = omega arith;
        lies = (
          read32_same size (with_text w us).memory w.data_at (λ i l k. low i k)
              ∙ read32-write32 w.memory w.data_at (length us) (omega (arith, small)),
          read16s-write16s us (0 ∷ []) size (w.data_at + 4) units,
          read16-write16s_end us size (w.data_at + 4) (w.data_at + 4 + 2 * length us) refl,
        );
        kept = λ a l. low a (omega arith) ∙ write32_below w.memory w.data_at (length us) a l;
        grown = sym (append-nil w.offs);
      })
]

-- The object with its entry among the offsets.
abbrev with_object : BinderIo → ℕ → BinderIo
with_object w p = record (advance w object_size) {
  offs_avail = w.offs_avail - 1;
  offs = w.offs ++ w.data_at ∷ [];
  memory = fill_object type_handle p w.memory w.data_at;
}

put_ref_cases :
    (w : BinderIo) (p : ℕ)
    → 0 < p
    → ((t : BinderIo) × (bio_put_ref w p ≡ record t { overflow = true }))
      ⊎ (bio_put_ref w p ≡ with_object w p)
unfolding bio_put_ref bio_alloc_obj
put_ref_cases w p pos =
    let there : (p == 0) ≡ false = ground arith in
    let store = fill (fill_object type_handle p) in
    let step : bio_put_ref w p ≡ store (add_offset (bio_alloc w object_size)) =
      rw (bio_put_ref, there) refl in
    elim (bio_alloc_cases w object_size) [
      | inl e ↦ inl (w, step ∙ ap (λ r. store (add_offset r)) e)
      | inr e ↦ elim (Bool-cases (w.offs_avail == 0)) [
        | inl none_left ↦
            inl (advance w object_size, step ∙ ap (λ r. store (add_offset r)) e ∙ rw none_left refl)
        | inr left ↦ inr (step ∙ ap (λ r. store (add_offset r)) e ∙ rw left refl)
      ]
    ]

has_offset-last : (xs : List ℕ) (p : ℕ) → has_offset (length (xs ++ p ∷ [])) p (xs ++ p ∷ []) ≡ true
has_offset-last [] p = rw (==_self p) refl
has_offset-last (x ∷ xs) p = ground (arith, has_offset-last xs p)

-- The words of an object that is written.
object-read :
    (mem : ℕ → ℕ) (a p : ℕ)
    → p < 2 ^ 32
    → (read32 (fill_object type_handle p mem a) a ≡ type_handle)
      × (read32 (fill_object type_handle p mem a) (a + 8) ≡ p)
object-read mem a p small =
    let m1 = write32 mem (a + 4) object_flags in
    let m2 = write32 m1 a type_handle in
    let m3 = write32 m2 (a + 8) p in
    let m4 = write32 m3 (a + 12) 0 in
    (
      read32_same m3 m4 a (λ i l k. write32_below m3 (a + 12) 0 i (omega arith))
          ∙ read32_same m2 m3 a (λ i l k. write32_below m2 (a + 8) p i (omega arith))
          ∙ read32-write32 m1 a type_handle (omega arith),
      read32_same m3 m4 (a + 8) (λ i l k. write32_below m3 (a + 12) 0 i (omega arith))
          ∙ read32-write32 m2 (a + 8) p small,
    )

handle-Wrote :
    (w : BinderIo) (p : ℕ)
    → IsItem (handle p)
    → (bio_put_ref w p).overflow ≡ false
    → Wrote w (bio_put_ref w p) (handle p)
handle-Wrote w p (pos, small) = elim (put_ref_cases w p pos) [
  | inl (t, e) ↦ overflown w (handle p) t (bio_put_ref w p) e
  | inr e ↦ written w (handle p) (bio_put_ref w p) (with_object w p) e (λ h.
      let (type, ptr) = object-read w.memory w.data_at p small in
      let m1 = write32 w.memory (w.data_at + 4) object_flags in
      let m2 = write32 m1 w.data_at type_handle in
      let m3 = write32 m2 (w.data_at + 8) p in
      record {
        before = h;
        place = refl;
        lies = (type, ptr, has_offset-last w.offs w.data_at);
        kept = λ a l.
            write32_below m3 (w.data_at + 12) 0 a (omega arith)
            ∙ write32_below m2 (w.data_at + 8) p a (omega arith)
            ∙ write32_below m1 w.data_at type_handle a l
            ∙ write32_below w.memory (w.data_at + 4) object_flags a (omega arith);
        grown = refl;
      })
]

pub put_item-Wrote :
    (w : BinderIo) (i : Item)
    → IsItem i
    → (put_item w i).overflow ≡ false
    → Wrote w (put_item w i) i
put_item-Wrote w (word n) valid = word-Wrote w n valid
put_item-Wrote w (text us) valid = text-Wrote w us valid
put_item-Wrote w (handle p) valid = handle-Wrote w p valid
