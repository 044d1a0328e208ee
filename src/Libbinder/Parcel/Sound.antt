-- ===== src/Libbinder/Parcel/Sound.antt =====
-- The parcels of src/lib/binder/Parcel.cpp that own their data, and how they grow.
use cdroid.Libbinder.Parcel.Growth.{
  release_dropped, release_dropped, grow_data, continue_write, resize, first_data,
}
use cdroid.Libbinder.Parcel.Writing.{make_room}
use cdroid.Libbinder.Parcel.{Status, no_error, no_memory, Parcel, Heap, Access, done, ◌>>=◌}
use cdroid.Prelude.{
  ap, ◌∙◌, length, subst, sym, ℕ, ◌≡◌, ◌≤◌, ◌<◌, ◌+◌, ◌*◌, ◌/◌, ◌%◌, ◌^◌, ◌⊎◌, inl, inr, Bool-cases,
  true, false, arith, refl, ltb, leb, if◌then◌else◌,
}

-- A parcel that owns its data and stands within it.
pub record IsSound (p : Parcel) : Type 0 where
  pub owned : p.owner ≡ false
  pub ordered : p.data_pos ≤ p.data_size
  pub held : p.data_size ≤ p.data_capacity
  pub small : p.data_capacity < 2 ^ 32
  pub nothing : p.has_data ≡ false → p.data_capacity ≡ 0

-- Only the room has grown.
pub record IsGrown (p q : Parcel) : Type 0 where
  pub same_pos : q.data_pos ≡ p.data_pos
  pub same_size : q.data_size ≡ p.data_size
  pub larger : p.data_capacity ≤ q.data_capacity
  pub kept : (i : ℕ) → i < p.data_capacity → q.bytes i ≡ p.bytes i
  pub same_objects : q.objects ≡ p.objects
  pub same_capacity : q.objects_capacity ≡ p.objects_capacity
  pub same_room : q.objects_room ≡ p.objects_room
  pub same_fds : q.allow_fds ≡ p.allow_fds
  pub same_refs : q.refs ≡ p.refs

-- The allocator has no room, or there is room for `n` bytes more.
abbrev pub Room : Parcel → ℕ → Access (Status × Parcel) → Type 0
Room p n r =
    (r ≡ done (no_memory, record p { error = no_memory }))
    ⊎ ((q : Parcel) × (r ≡ done (no_error, q))
        × IsSound q
        × IsGrown p q
        × (p.data_pos + n ≤ q.data_capacity))

module _ (h : Heap) (p : Parcel) (v : IsSound p) where
  resize-Room :
      (desired n : ℕ)
      → p.data_capacity < desired
      → desired < 2 ^ 32
      → p.data_pos + n ≤ desired
      → p.has_data ≡ true
      → Room p n (resize h p desired)
  resize-Room desired n more small enough there = elim (Bool-cases (h.room desired)) [
    | inr none_left ↦ inl (ground (arith, none_left))
    | inl room ↦ inr (
      record p {
        bytes = λ i. if ltb i p.data_capacity then p.bytes i else h.junk i;
        data_capacity = desired;
      },
      ground (arith, room),
      record {
        owned = v.owned;
        ordered = v.ordered;
        held = omega (arith, v.held);
        small = small;
        nothing = λ f. absurd (ground (arith, there, f));
      },
      record {
        same_pos = refl;
        same_size = refl;
        larger = omega arith;
        kept = λ i l. ground arith;
        same_objects = refl;
        same_capacity = refl;
        same_room = refl;
        same_fds = refl;
        same_refs = refl;
      },
      enough,
    )
  ]

  first_data-Room :
      (desired n : ℕ)
      → desired < 2 ^ 32
      → p.data_pos + n ≤ desired
      → p.has_data ≡ false
      → Room p n (first_data h p desired)
  first_data-Room desired n small enough none_yet =
      let empty = v.nothing none_yet in
      let size : p.data_size ≡ 0 = omega (arith, v.held, empty) in
      let pos : p.data_pos ≡ 0 = omega (arith, v.ordered, size) in
      elim (Bool-cases (h.room desired)) [
        | inr none_left ↦ inl (ground (arith, none_left))
        | inl room ↦ inr (
          record p {
            has_data = true;
            bytes = h.junk;
            data_size = 0;
            data_pos = 0;
            data_capacity = desired;
          },
          ground (arith, room),
          record {
            owned = v.owned;
            ordered = omega arith;
            held = omega arith;
            small = small;
            nothing = λ f. absurd (ground arith);
          },
          record {
            same_pos = omega (arith, pos);
            same_size = omega (arith, size);
            larger = omega (arith, empty);
            kept = λ i l. absurd (omega (arith, empty));
            same_objects = refl;
            same_capacity = refl;
            same_room = refl;
            same_fds = refl;
            same_refs = refl;
          },
          enough,
        )
      ]

  -- No object goes when the data grows.
  keeps_objects : (desired : ℕ) → p.data_size ≤ desired → release_dropped p desired ≡ done p
  keeps_objects desired l =
      let no_less : ltb desired p.data_size ≡ false = ground (arith, l) in
      let same : ltb (length p.objects) (length p.objects) ≡ false = ground arith in
      rw (no_less, same) refl

  pub continue_own :
      (desired : ℕ)
      → p.has_data ≡ true
      → continue_write h p desired ≡ (release_dropped p desired >>= λ q. resize h q desired)
  unfolding continue_write
  continue_own desired there = simp (v.owned, there)

  continue_first :
      (desired : ℕ) → p.has_data ≡ false → continue_write h p desired ≡ first_data h p desired
  unfolding continue_write
  continue_first desired none_yet = simp (v.owned, none_yet)

  grow_data_is :
      (n : ℕ)
      → p.data_size + n < 2 ^ 30
      → p.data_capacity < p.data_pos + n
      → grow_data h p n ≡ continue_write h p ((p.data_size + n) * 3 / 2)
  unfolding grow_data
  grow_data_is n few more =
      let no_wrap : (p.data_size + n) * 3 % 2 ^ 32 / 2 ≡ (p.data_size + n) * 3 / 2 = omega arith in
      let longer : leb ((p.data_size + n) * 3 / 2) p.data_size ≡ false =
        ground (arith, v.ordered, v.held) in
      rw (no_wrap, longer) refl

  resized :
      (n : ℕ)
      → p.data_size + n < 2 ^ 30
      → p.data_capacity < p.data_pos + n
      → p.has_data ≡ true
      → grow_data h p n ≡ resize h p ((p.data_size + n) * 3 / 2)
  resized n few more there =
      let desired = (p.data_size + n) * 3 / 2 in
      grow_data_is n few more
      ∙ continue_own desired there
      ∙ ap (λ r. r >>= λ q. resize h q desired)
          (keeps_objects desired (omega (arith, v.ordered, v.held)))

  grow_data-Room :
      (n : ℕ)
      → p.data_size + n < 2 ^ 30
      → p.data_capacity < p.data_pos + n
      → Room p n (grow_data h p n)
  grow_data-Room n few more = elim (Bool-cases p.has_data) [
    | inl there ↦ subst (Room p n) (sym (resized n few more there)) (
        resize-Room ((p.data_size + n) * 3 / 2) n (omega (arith, v.ordered, v.held)) (omega arith)
          (omega (arith, v.ordered, v.held)) there)
    | inr none_yet ↦
        subst (Room p n)
          (sym (grow_data_is n few more ∙ continue_first ((p.data_size + n) * 3 / 2) none_yet))
          (first_data-Room ((p.data_size + n) * 3 / 2) n (omega arith)
            (omega (arith, v.ordered, v.held, more)) none_yet)
  ]

  -- Room is made, or there is none; nothing else happens to what is written.
  pub make_room-Room :
      (n : ℕ) → p.data_size + n < 2 ^ 30 → Room p n (make_room h p ((p.data_pos + n) % 2 ^ 32) n)
  make_room-Room n few = elim (Bool-cases (leb ((p.data_pos + n) % 2 ^ 32) p.data_capacity)) [
    | inl fits ↦ inr (
      p,
      rw fits refl,
      v,
      record {
        same_pos = refl;
        same_size = refl;
        larger = omega arith;
        kept = λ i l. refl;
        same_objects = refl;
        same_capacity = refl;
        same_room = refl;
        same_fds = refl;
        same_refs = refl;
      },
      ground (arith, fits, v.ordered),
    )
    | inr full ↦ rw full (grow_data-Room n few (ground (arith, full, v.ordered)))
  ]
