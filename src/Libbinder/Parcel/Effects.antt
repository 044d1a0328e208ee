-- ===== src/Libbinder/Parcel/Effects.antt =====
-- What the write functions of src/lib/binder/Parcel.cpp leave in a parcel that owns its data.
use cdroid.Libbinder.Parcel.Sound.{IsSound, IsGrown, make_room-Room}
use cdroid.Libbinder.Parcel.Writing.{
  apply_pad, fill_in, finish_write, write_inplace, write_int32, masked,
}
use cdroid.Libbinder.Parcel.{
  Status, no_error, no_memory, Parcel, Heap, Access, done, ◌>>=◌, pad_size, sub32,
}
use cdroid.Memory.{read32, write32, write32_below, read32-write32}
use cdroid.Prelude.{
  ◌-◌, ℕ, ◌≡◌, ◌≤◌, ◌<◌, ◌+◌, ◌%◌, ◌^◌, ◌⊎◌, inl, inr, Bool-cases, true, false, arith, refl, ltb,
  leb, ◌==◌, ap, ◌∙◌, sym,
}

-- A write fails for lack of memory, or has an effect.
abbrev pub Written : (Parcel → Type 0) → Access (Status × Parcel) → Type 0
Written P r =
    ((q : Parcel) × (r ≡ done (no_memory, q))) ⊎ ((q : Parcel) × (r ≡ done (no_error, q)) × P q)

-- Behind a write of `n` bytes at the position: what was before it is as it was.
pub record Wrote (p : Parcel) (n : ℕ) (q : Parcel) : Type 0 where
  pub sound : IsSound q
  pub place : q.data_pos ≡ p.data_pos + n
  pub room : q.data_size ≤ p.data_size + n
  pub reached : p.data_size ≤ q.data_size
  pub kept : (i : ℕ) → i < p.data_pos → q.bytes i ≡ p.bytes i
  pub same_objects : q.objects ≡ p.objects

finish_write-IsSound :
    (p : Parcel) (n : ℕ) → IsSound p → p.data_pos + n ≤ p.data_capacity → IsSound (finish_write p n)
unfolding finish_write
finish_write-IsSound p n v l = record {
  owned = v.owned;
  ordered = ground (arith, v.small);
  held = ground (arith, v.held, v.small);
  small = v.small;
  nothing = v.nothing;
}

-- The parcel that has grown, with other bytes and the position moved on.
wrote_lem :
    (p r : Parcel) (n : ℕ) (mem : ℕ → ℕ)
    → IsGrown p r
    → IsSound p
    → IsSound r
    → p.data_pos + n ≤ r.data_capacity
    → ((i : ℕ) → i < p.data_pos → mem i ≡ r.bytes i)
    → Wrote p n (finish_write (record r { bytes = mem }) n)
unfolding finish_write
wrote_lem p r n mem g v w l same = record {
  sound =
      finish_write-IsSound (record r { bytes = mem }) n
        (record {
          owned = w.owned;
          ordered = w.ordered;
          held = w.held;
          small = w.small;
          nothing = w.nothing;
        })
        (omega (arith, l, g.same_pos));
  place = omega (arith, l, g.same_pos, w.small);
  room = ground (arith, l, g.same_pos, g.same_size, v.ordered, w.small);
  reached = ground (arith, g.same_size);
  kept = λ i u. same i u ∙ g.kept i (omega (arith, u, v.ordered, v.held));
  same_objects = g.same_objects;
}

module _ (h : Heap) (p : Parcel) (v : IsSound p) where
  -- writeInt32 writes the word at the position.
  pub write_int32-Wrote :
      (val : ℕ)
      → val < 2 ^ 32
      → p.data_size + 4 < 2 ^ 30
      → Written (λ q. Wrote p 4 q × (read32 q.bytes p.data_pos ≡ val)) (write_int32 h p val)
  unfolding write_int32 finish_write
  write_int32-Wrote val small few = elim (make_room-Room h p v 4 few) [
    | inl none_left ↦ inl (record p { error = no_memory }, rw none_left refl)
    | inr (r, e, w, g, room) ↦
        let fits : leb (r.data_pos + 4) r.data_capacity ≡ true = ground (arith, room, g.same_pos) in
        let mem = write32 r.bytes r.data_pos val in
        inr (
          finish_write (record r { bytes = mem }) 4,
          rw e (rw fits refl),
          (
            wrote_lem p r 4 mem g v w room
                (λ i l. write32_below r.bytes r.data_pos val i (omega (arith, l, g.same_pos))),
            ap (read32 mem) (sym g.same_pos) ∙ read32-write32 r.bytes r.data_pos val small,
          ),
        )
  ]

  -- The padding of the last word changes nothing before the position.
  apply_pad-done :
      (r : Parcel) (len : ℕ)
      → len < 2 ^ 30
      → r.data_pos + pad_size len ≤ r.data_capacity
      → r.data_capacity < 2 ^ 32
      → (mem : ℕ → ℕ) × (apply_pad r (pad_size len) len ≡ done (record r { bytes = mem }))
        × ((i : ℕ) → i < r.data_pos → mem i ≡ r.bytes i)
  apply_pad-done r len few room small = elim (Bool-cases (pad_size len == len)) [
    | inl whole ↦ (r.bytes, rw whole refl, λ i l. refl)
    | inr part ↦
        let at = sub32 (r.data_pos + pad_size len) 4 in
        let at_is : at ≡ r.data_pos + pad_size len - 4 = ground (arith, part) in
        let fits : leb (at + 4) r.data_capacity ≡ true = ground (arith, part, at_is) in
        let word = masked (sub32 (pad_size len) len) (read32 r.bytes at) in
        (
          write32 r.bytes at word,
          rw part (rw fits refl),
          λ i l. write32_below r.bytes at word i (ground (arith, part, at_is)),
        )
  ]

  -- Something written to the place that writeInplace gives.
  pub fill_in-Wrote :
      (len n : ℕ) (change : (ℕ → ℕ) → ℕ → ℕ → ℕ)
      → p.data_size + pad_size len < 2 ^ 30
      → len < 2 ^ 30
      → n ≤ pad_size len
      → ((mem : ℕ → ℕ) (a i : ℕ) → i < a → change mem a i ≡ mem i)
      → Written
          (λ q. Wrote p (pad_size len) q × (mem : ℕ → ℕ) × (q.bytes ≡ change mem p.data_pos))
          (write_inplace h p len >>= fill_in n change)
  unfolding write_inplace finish_write
  fill_in-Wrote len n change few small fits below =
      let no_wrap : ltb ((p.data_pos + pad_size len) % 2 ^ 32) p.data_pos ≡ false =
        ground (arith, v.ordered) in
      elim (make_room-Room h p v (pad_size len) few) [
        | inl none_left ↦ inl (record p { error = no_memory }, rw (no_wrap, none_left) refl)
        | inr (r, e, w, g, room) ↦
            let (mem, done_pad, same) =
              apply_pad-done r len small (omega (arith, room, g.same_pos)) w.small in
            let in_room : leb (r.data_pos + n) r.data_capacity ≡ true =
              ground (arith, room, g.same_pos, fits) in
            let mem' = change mem r.data_pos in
            inr (
              finish_write (record r { bytes = mem' }) (pad_size len),
              rw (no_wrap, e, done_pad, in_room) refl,
              (
                wrote_lem p r (pad_size len) mem' g v w room (λ i l.
                    below mem r.data_pos i (omega (arith, l, g.same_pos))
                    ∙ same i (omega (arith, l, g.same_pos))),
                mem,
                ap (change mem) g.same_pos,
              ),
            )
      ]
