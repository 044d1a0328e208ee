-- ===== src/Libbinder/Parcel/Stored.antt =====
-- Where the items lie that are written to a parcel of src/lib/binder/Parcel.cpp.
use cdroid.Libbinder.Parcel.Items.{
  Item, word, text, chars, write_item, write_items, IsItem, item_size, total_size, Lies, LieAll,
}
use cdroid.Libbinder.Parcel.Bytes.{
  take-all, bytes_at-write_bytes, write_bytes_below, write_bytes_end, bytes_same,
}
use cdroid.Libbinder.Parcel.Effects.{write_int32-Wrote, Wrote, Written, fill_in-Wrote}
use cdroid.Libbinder.Parcel.Sound.{IsSound}
use cdroid.Libbinder.Parcel.Writing.{
  fill_in, write_inplace, write, write_bytes, write_c_string, write_string16,
}
use cdroid.Libbinder.Parcel.Reading.{bytes_at}
use cdroid.Libbinder.Parcel.{Parcel, Heap, ◌>>=◌, pad_size}
use cdroid.Memory.{
  read16s-write16s, write16s_below, write16s, read32, read32_same, read16s, read16s_same,
}
use cdroid.Prelude.{
  sym, take, ◌%◌, refl, ℕ, ◌≡◌, ◌<◌, ◌+◌, ◌*◌, ◌/◌, ◌^◌, inl, inr, arith, ap, ◌∙◌, subst, some,
  List, [], ◌∷◌, ◌++◌, All, length, length-append,
}

Lies-same :
    (mem mem' : ℕ → ℕ) (pos : ℕ) (i : Item)
    → ((a : ℕ) → a < pos + item_size i → mem' a ≡ mem a)
    → Lies mem pos i
    → Lies mem' pos i
Lies-same mem mem' pos (word n) kept l = read32_same mem mem' pos (λ a x y. kept a y) ∙ l
Lies-same mem mem' pos (text us) kept l = (
  read32_same mem mem' pos (λ a x y. kept a (omega (arith, y))) ∙ l.0,
  read16s_same (length us) mem mem' (pos + 4) (λ a x y. kept a (omega (arith, y))) ∙ l.1,
)
Lies-same mem mem' pos (chars bs) kept l = (
  bytes_same (length bs) mem mem' pos (λ a x y. kept a (omega (arith, y))) ∙ l.0,
  kept (pos + length bs) (omega arith) ∙ l.1,
)

Wrote-trans : (p q r : Parcel) (m n : ℕ) → Wrote p m q → Wrote q n r → Wrote p (m + n) r
Wrote-trans p q r m n v w = record {
  sound = w.sound;
  place = omega (arith, v.place, w.place);
  room = omega (arith, v.room, w.room);
  reached = omega (arith, v.reached, w.reached);
  kept = λ i l. w.kept i (omega (arith, l, v.place)) ∙ v.kept i l;
  same_objects = w.same_objects ∙ v.same_objects;
}

module _ (h : Heap) where
  chars-Written :
      (p : Parcel) (bs : List ℕ)
      → IsSound p
      → All (λ b. (0 < b) × (b < 256)) bs
      → p.data_size + item_size (chars bs) < 2 ^ 30
      → Written
          (λ q. Wrote p (item_size (chars bs)) q × Lies q.bytes p.data_pos (chars bs))
          (write_c_string h p bs)
  unfolding write_c_string write
  chars-Written p bs v f few =
      let len = length (bs ++ 0 ∷ []) in
      let len_is : len ≡ length bs + 1 = length-append bs (0 ∷ []) in
      let size : pad_size len ≡ item_size (chars bs) = omega (arith, len_is, few) in
      elim (fill_in-Wrote h p v len len (λ mem at. write_bytes mem at (bs ++ 0 ∷ []))
        (omega (arith, size, few)) (omega (arith, len_is, few)) (omega (arith, len_is, size))
        (λ mem a i l. write_bytes_below (bs ++ 0 ∷ []) mem a i l)) [
          | inl none_left ↦ inl none_left
          | inr (q, e, (w, mem, made)) ↦ inr (
            q,
            e,
            (
              subst (λ n. Wrote p n q) size w,
              (
                ap (λ m. bytes_at m p.data_pos (length bs)) made
                    ∙ bytes_at-write_bytes bs (0 ∷ []) mem p.data_pos f,
                ap (λ m. m (p.data_pos + length bs)) made ∙ write_bytes_end bs mem p.data_pos,
              ),
            ),
          )
        ]

  -- The units behind their number.
  units-Written :
      (p q : Parcel) (us : List ℕ)
      → Wrote p 4 q
      → read32 q.bytes p.data_pos ≡ length us
      → All (λ u. u < 2 ^ 16) us
      → p.data_size + item_size (text us) < 2 ^ 30
      → Written
          (λ r. Wrote p (item_size (text us)) r × Lies r.bytes p.data_pos (text us))
          (write_inplace h q ((length us * 2 % 2 ^ 32 + 2) % 2 ^ 32)
            >>= fill_in
                (length us * 2 % 2 ^ 32 + 2)
                (λ mem at. write16s mem at (take (length us * 2 % 2 ^ 32 / 2) us ++ 0 ∷ [])))
  units-Written p q us w number f few =
      let len : length us * 2 % 2 ^ 32 ≡ 2 * length us = omega (arith, few) in
      let len' : (2 * length us + 2) % 2 ^ 32 ≡ 2 * length us + 2 = omega (arith, few) in
      let size : 4 + pad_size (2 * length us + 2) ≡ item_size (text us) = omega (arith, few) in
      let all : take (2 * length us / 2) us ≡ us = take-all (2 * length us / 2) us (omega arith) in
      rw (len, len', all)
        (elim (fill_in-Wrote h q w.sound (2 * length us + 2) (2 * length us + 2)
          (λ mem at. write16s mem at (us ++ 0 ∷ [])) (omega (arith, size, few, w.room))
          (omega (arith, few)) (omega (arith, few))
          (λ mem a i l. write16s_below (us ++ 0 ∷ []) mem a i l)) [
            | inl none_left ↦ inl none_left
            | inr (r, e, (w', mem, made)) ↦ inr (
              r,
              e,
              (
                subst (λ n. Wrote p n r) size
                    (Wrote-trans p q r 4 (pad_size (2 * length us + 2)) w w'),
                (
                  read32_same q.bytes r.bytes p.data_pos
                        (λ a l u. w'.kept a (omega (arith, u, w.place)))
                      ∙ number,
                  ap (λ a. read16s r.bytes a (length us)) (sym w.place)
                      ∙ ap (λ m. read16s m q.data_pos (length us)) made
                      ∙ read16s-write16s us (0 ∷ []) mem q.data_pos f,
                ),
              ),
            )
          ])

  text-Written :
      (p : Parcel) (us : List ℕ)
      → IsSound p
      → All (λ u. u < 2 ^ 16) us
      → p.data_size + item_size (text us) < 2 ^ 30
      → Written
          (λ q. Wrote p (item_size (text us)) q × Lies q.bytes p.data_pos (text us))
          (write_string16 h p (some us))
  unfolding write_string16
  text-Written p us v f few =
      elim (write_int32-Wrote h p v (length us) (omega (arith, few)) (omega (arith, few))) [
        | inl (q, e) ↦ inl (q, rw e refl)
        | inr (q, e, (w, number)) ↦ rw e (units-Written p q us w number f few)
      ]

  write_item-Wrote :
      (p : Parcel) (i : Item)
      → IsSound p
      → IsItem i
      → p.data_size + item_size i < 2 ^ 30
      → Written (λ q. Wrote p (item_size i) q × Lies q.bytes p.data_pos i) (write_item h p i)
  unfolding write_item
  write_item-Wrote p (word n) v f few = write_int32-Wrote h p v n f few
  write_item-Wrote p (text us) v f few = text-Written p us v f few
  write_item-Wrote p (chars bs) v f few = chars-Written p bs v f few

  -- Every item lies where it was written.
  pub write_items-Wrote :
      (is : List Item) (p : Parcel)
      → IsSound p
      → All IsItem is
      → p.data_size + total_size is < 2 ^ 30
      → Written (λ q. Wrote p (total_size is) q × LieAll q.bytes p.data_pos is) (write_items h p is)
  unfolding write_items
  write_items-Wrote [] p v f few = inr (
    p,
    refl,
    (
      record {
        sound = v;
        place = omega arith;
        room = omega arith;
        reached = omega arith;
        kept = λ i l. refl;
        same_objects = refl;
      },
      tt,
    ),
  )
  write_items-Wrote (i ∷ is) p v f few = elim (write_item-Wrote p i v f.0 (omega (arith, few))) [
    | inl (q, e) ↦ inl (q, rw e refl)
    | inr (q, e, (w, lies)) ↦
        elim (write_items-Wrote is q w.sound f.1 (omega (arith, few, w.room))) [
          | inl (r, e') ↦ inl (r, rw e e')
          | inr (r, e', (w', lie)) ↦ inr (
            r,
            rw e e',
            (
              Wrote-trans p q r (item_size i) (total_size is) w w',
              (
                Lies-same q.bytes r.bytes p.data_pos i
                    (λ a l. w'.kept a (omega (arith, l, w.place))) lies,
                subst (λ pos. LieAll r.bytes pos is) w.place lie,
              ),
            ),
          )
        ]
  ]
