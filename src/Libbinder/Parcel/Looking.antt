-- ===== src/Libbinder/Parcel/Looking.antt =====
-- readObject of src/lib/binder/Parcel.cpp gives an object exactly if it is entered.
use cdroid.Libbinder.Parcel.Hint.{IsAscending, entry_found, found_entry}
use cdroid.Libbinder.Parcel.Reading.{look_up, read_object, find_object}
use cdroid.Memory.{read32}
use cdroid.Libbinder.Parcel.{leb, done, FlatBinderObject, object_size, Parcel, Bool, object_at}
use cdroid.Libbinder.Parcel.{◌>>=◌}
use cdroid.Prelude.{
  if◌then◌else◌, sym, subst, Option-cases, ◌&&◌, none, not, ◌%◌, ◌^◌, false, ◌∙◌, subst, ℕ, ◌≡◌,
  ◌≤◌, ◌<◌, ◌+◌, ◌==◌, ◌⊎◌, inl, inr, if◌then◌else◌, arith, refl, length, some, get_or, Bool-cases,
  true,
}

-- An object is entered at the position.
abbrev pub IsEntry : Parcel → Type 0
IsEntry p = (i : ℕ) × (i < length p.objects) × (get_or p.objects i 0 ≡ p.data_pos)

abbrev pub IsNull : Bool → FlatBinderObject → Type 0
IsNull null_meta_data obj = (null_meta_data ≡ false) × (obj.cookie ≡ 0) × (obj.binder ≡ 0)

-- The object at the position, if it may be read.
abbrev pub Looked : Parcel → Bool → FlatBinderObject → Parcel → Type 0
Looked p null_meta_data obj q =
    ((read_object p null_meta_data ≡ done (some obj, q)) × (IsEntry p ⊎ IsNull null_meta_data obj))
    ⊎ ((read_object p null_meta_data ≡ done (none, q))
        × (¬ (IsEntry p ⊎ IsNull null_meta_data obj)))

module _ (p : Parcel) (there : p.data_pos + object_size ≤ p.data_size)
    (held : p.data_size ≤ p.data_capacity) (small : p.data_capacity < 2 ^ 32) where
  abbrev pub obj : FlatBinderObject
  obj = record {
    type = read32 p.bytes p.data_pos;
    flags = read32 p.bytes (p.data_pos + 4);
    binder = read32 p.bytes (p.data_pos + 8);
    cookie = read32 p.bytes (p.data_pos + 12);
  }

  abbrev pub over : Parcel
  over = record p { data_pos = p.data_pos + object_size }

  object_here : object_at p p.data_pos ≡ done obj
  unfolding object_at
  object_here =
      let fits : leb (p.data_pos + object_size) p.data_capacity ≡ true =
        ground (arith, there, held) in
      rw fits refl

  pub read_object_is :
      (null_meta_data : Bool)
      → read_object p null_meta_data ≡ done (look_up over p.data_pos obj null_meta_data)
  unfolding read_object
  read_object_is null_meta_data =
      let end : (p.data_pos + object_size) % 2 ^ 32 ≡ p.data_pos + object_size =
        omega (arith, there, held, small) in
      let fits : leb (p.data_pos + object_size) p.data_size ≡ true = ground (arith, there) in
      subst
        (λ e.
          (if leb e p.data_size
            then (object_at p p.data_pos >>= λ obj.
                done (look_up (record p { data_pos = e }) p.data_pos obj null_meta_data))
            else done (none, p))
          ≡ done (look_up over p.data_pos obj null_meta_data))
        (sym end) (rw (fits, object_here) refl)

  -- readObject, on a parcel whose objects lie in order and whose data holds an object's bytes at
  -- the position, moves over them, and gives what lies there exactly if an object is entered at
  -- the position, at any index, or if it is null and null objects need no entry. The hint that the
  -- search starts from does not matter.
  pub read_object-Looked :
      IsAscending p.objects
      → (null_meta_data : Bool)
      → (obj : FlatBinderObject) × (q : Parcel) × (object_at p p.data_pos ≡ done obj)
        × (q.data_pos ≡ p.data_pos + object_size)
        × Looked p null_meta_data obj q
  read_object-Looked asc null_meta_data =
      elim (Bool-cases (not null_meta_data && obj.cookie == 0 && obj.binder == 0)) [
        | inl null ↦ (
          obj,
          over,
          object_here,
          refl,
          inl (
            read_object_is null_meta_data ∙ rw null refl,
            inr (ground (arith, null), ground (arith, null), ground (arith, null)),
          ),
        )
        | inr other ↦ elim (Option-cases (find_object p.objects p.data_pos p.next_object_hint)) [
          | inl none_found ↦ (
            obj,
            over,
            object_here,
            refl,
            inr (
              read_object_is null_meta_data ∙ rw (other, none_found) refl,
              λ e. elim e [
                | inl (i, l, at) ↦
                    let found = entry_found p.objects p.data_pos asc p.next_object_hint i l at in cc
                | inr (no_meta, cookie, binder) ↦
                    absurd (ground (arith, other, no_meta, cookie, binder))
              ],
            ),
          )
          | inr (i, found) ↦ (
            obj,
            record over { next_object_hint = i + 1 },
            object_here,
            refl,
            inl (
              read_object_is null_meta_data ∙ rw (other, found) refl,
              inl (
                i,
                (found_entry p.objects p.data_pos asc p.next_object_hint i found).0,
                (found_entry p.objects p.data_pos asc p.next_object_hint i found).1,
              ),
            ),
          )
        ]
      ]
