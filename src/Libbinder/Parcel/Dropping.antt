-- ===== src/Libbinder/Parcel/Dropping.antt =====
-- setDataSize of src/lib/binder/Parcel.cpp to a smaller size, and the objects that it drops.
use cdroid.Libbinder.Parcel.Cutting.{
  IsOrdered, Cut, trim-Cut, drop-append, releases, no_fds, drop_objects_is, no_length,
}
use cdroid.Libbinder.Parcel.Writing.{write_object}
use cdroid.Libbinder.Parcel.Sound.{continue_own, IsSound}
use cdroid.Libbinder.Parcel.Growth.{release_dropped, set_data_size, trim, kept_objects}
use cdroid.Libbinder.Parcel.{fault, no_error, Parcel, Heap, done, object_size, FlatBinderObject}
use cdroid.Prelude.{
  ◌^◌, ◌%◌, length-append, sym, ◌∙◌, ◌⊎◌, min, All-append_right, append-nil, ℕ, ◌≡◌, ◌≤◌, ◌<◌, ◌+◌,
  ◌&&◌, not, inl, inr, Bool, Bool-cases, true, false, arith, refl, ltb, leb, ◌==◌, if◌then◌else◌,
  ap, subst, List, [], ◌∷◌, ◌++◌, length, All, drop,
}

-- An object is entered behind the memory of the objects.
put_overruns :
    (h : Heap) (q : Parcel) (val : FlatBinderObject) (null_meta_data : Bool)
    → (q.data_pos + object_size) % 2 ^ 32 ≡ q.data_pos + object_size
    → leb (q.data_pos + object_size) q.data_capacity ≡ true
    → ltb (length q.objects) q.objects_capacity ≡ true
    → (not null_meta_data && val.binder == 0) ≡ false
    → ltb (length q.objects) q.objects_room ≡ false
    → write_object h q val null_meta_data ≡ fault
unfolding write_object
put_overruns h q val null_meta_data end room free entered full =
    rw (end, room, free, room, entered, full) refl

module _ (h : Heap) (p : Parcel) (v : IsSound p) (there : p.has_data ≡ true)
    (ordered : IsOrdered p.objects)
    (inside : All (λ o. o + object_size ≤ p.data_capacity) p.objects) (size : ℕ)
    (some_left : 0 < size) (less : size < p.data_size) where
  abbrev kept : List ℕ
  kept = trim size p.objects

  cut : Cut size p.objects kept
  cut = trim-Cut size p.objects ordered

  kept_is : kept_objects p size ≡ kept
  kept_is =
      let shorter : ltb size p.data_size ≡ true = ground (arith, less) in
      let not_zero : (size == 0) ≡ false = ground (arith, some_left) in rw (shorter, not_zero) refl

  -- What the release of the objects leaves.
  record Released (q : Parcel) : Type 0 where
    objects : q.objects ≡ kept
    refs : q.refs ≡ releases p.bytes cut.dropped p.refs
    fds : q.fds_known ≡ no_fds p.bytes cut.dropped p.fds_known
    bytes : q.bytes ≡ p.bytes
    pos : q.data_pos ≡ p.data_pos
    end : q.data_size ≡ p.data_size
    capacity : q.data_capacity ≡ p.data_capacity
    objects_capacity : q.objects_capacity ≡ p.objects_capacity
    room : length kept < length p.objects → q.objects_room ≡ length kept
    owned : q.owner ≡ false

  release_dropped-Released : (q : Parcel) × (release_dropped p size ≡ done q) × Released q
  release_dropped-Released =
      let len : length p.objects ≡ length kept + length cut.dropped =
        ap length cut.whole ∙ length-append kept cut.dropped in
      let rest : drop (length kept) p.objects ≡ cut.dropped =
        ap (drop (length kept)) cut.whole ∙ drop-append kept cut.dropped in
      by_length (Bool-cases (ltb (length kept) (length p.objects))) len rest
    where
      by_length :
          (ltb (length kept) (length p.objects) ≡ true)
            ⊎ (ltb (length kept) (length p.objects) ≡ false)
          → length p.objects ≡ length kept + length cut.dropped
          → drop (length kept) p.objects ≡ cut.dropped
          → (q : Parcel) × (release_dropped p size ≡ done q) × Released q
      by_length (inl some_go) len rest =
          let gone = drop_objects_is cut.dropped p (
            All-append_right (λ o. o + object_size ≤ p.data_capacity) kept cut.dropped
              (subst (All (λ o. o + object_size ≤ p.data_capacity)) cut.whole inside)) in
          (
            record p {
              fds_known = no_fds p.bytes cut.dropped p.fds_known;
              refs = releases p.bytes cut.dropped p.refs;
              objects = kept;
              objects_room = length kept;
              next_object_hint = 0;
            },
            rw (kept_is, some_go, rest, gone) refl,
            record {
              objects = refl;
              refs = refl;
              fds = refl;
              bytes = refl;
              pos = refl;
              end = refl;
              capacity = refl;
              objects_capacity = refl;
              room = λ l. refl;
              owned = v.owned;
            },
          )
      by_length (inr none_go) len rest =
          let empty : cut.dropped ≡ [] = no_length cut.dropped (ground (arith, none_go, len)) in
          (
            p,
            rw (kept_is, none_go) refl,
            record {
              objects = cut.whole ∙ ap (λ ds. kept ++ ds) empty ∙ append-nil kept;
              refs = ap (λ ds. releases p.bytes ds p.refs) (sym empty);
              fds = ap (λ ds. no_fds p.bytes ds p.fds_known) (sym empty);
              bytes = refl;
              pos = refl;
              end = refl;
              capacity = refl;
              objects_capacity = refl;
              room = λ l. absurd (ground (arith, none_go, l));
              owned = v.owned;
            },
          )

  -- Behind the call.
  record Shrunk (q : Parcel) : Type 0 where
    objects : q.objects ≡ kept
    refs : q.refs ≡ releases p.bytes cut.dropped p.refs
    fds : q.fds_known ≡ no_fds p.bytes cut.dropped p.fds_known
    bytes : q.bytes ≡ p.bytes
    pos : q.data_pos ≡ min p.data_pos size
    end : q.data_size ≡ size
    capacity : q.data_capacity ≡ p.data_capacity
    objects_capacity : q.objects_capacity ≡ p.objects_capacity
    room : length kept < length p.objects → q.objects_room ≡ length kept

  set_data_size-Shrunk : (q : Parcel) × (set_data_size h p size ≡ done (no_error, q)) × Shrunk q
  unfolding set_data_size
  set_data_size-Shrunk =
      let (r, e, w) = release_dropped-Released in
      let fits : ltb r.data_capacity size ≡ false = ground (arith, w.capacity, v.held, less) in
      (
        record r { data_size = size; data_pos = if ltb size r.data_pos then size else r.data_pos },
        rw (continue_own h p v size there, e, fits) refl,
        record {
          objects = w.objects;
          refs = w.refs;
          fds = w.fds;
          bytes = w.bytes;
          pos = ground (arith, w.pos);
          end = refl;
          capacity = w.capacity;
          objects_capacity = w.objects_capacity;
          room = w.room;
        },
      )

  -- setDataSize, on a parcel that owns its data, stands within it and has its objects in order and
  -- inside its memory, to a size that is smaller and not 0, returns NO_ERROR, keeps exactly the
  -- objects that begin before the new end, releases the others once each from the first to the
  -- last, no longer knows whether there are file descriptors if one of those was one, leaves the
  -- bytes, and moves the position to the new end if it was behind it.
  pub set_data_size_drops :
      (kept : List ℕ) × (dropped : List ℕ) × (p.objects ≡ kept ++ dropped)
      × All (λ o. o < size) kept
      × All (λ o. size ≤ o) dropped
      × (q : Parcel) × (set_data_size h p size ≡ done (no_error, q))
      × (q.objects ≡ kept)
      × (q.refs ≡ releases p.bytes dropped p.refs)
      × (q.fds_known ≡ no_fds p.bytes dropped p.fds_known)
      × (q.bytes ≡ p.bytes)
      × (q.data_size ≡ size)
      × (q.data_pos ≡ min p.data_pos size)
  set_data_size_drops =
      let (q, e, w) = set_data_size-Shrunk in
      (
        kept, cut.dropped, cut.whole, cut.before, cut.behind, q, e, w.objects, w.refs, w.fds,
        w.bytes, w.end, w.pos,
      )

  -- The last object goes if it is at or behind the new end.
  drops_last :
      (front : List ℕ) (last : ℕ)
      → p.objects ≡ front ++ last ∷ []
      → size ≤ last
      → length kept < length p.objects
  drops_last front last e l = elim (Bool-cases (ltb (length kept) (length p.objects))) [
    | inl less ↦ ground (arith, less)
    | inr all ↦
        let len : length p.objects ≡ length kept + length cut.dropped =
          ap length cut.whole ∙ length-append kept cut.dropped in
        let empty = no_length cut.dropped (ground (arith, all, len)) in
        let same : p.objects ≡ kept = cut.whole ∙ ap (λ ds. kept ++ ds) empty ∙ append-nil kept in
        let below =
          All-append_right (λ o. o < size) front (last ∷ [])
            (subst (All (λ o. o < size)) (sym same ∙ e) cut.before) in
        absurd (omega (arith, below.0, l))
  ]

  -- setDataSize, on a parcel that owns its data, stands within it and has its objects in order,
  -- inside its memory and not more than their capacity, to a smaller size that is not 0, behind
  -- which an object fits and where the last object is dropped, returns NO_ERROR, and then
  -- writeObject of an object that is entered stores its entry outside the memory that is left for
  -- the objects.
  pub write_object_overruns :
      (front : List ℕ) (last : ℕ) (val : FlatBinderObject) (null_meta_data : Bool)
      → p.objects ≡ front ++ last ∷ []
      → size ≤ last
      → length p.objects ≤ p.objects_capacity
      → size + object_size ≤ p.data_capacity
      → (not null_meta_data && val.binder == 0) ≡ false
      → (q : Parcel) × (set_data_size h p size ≡ done (no_error, q))
        × (write_object h q val null_meta_data ≡ fault)
  write_object_overruns front last val null_meta_data e l roomy enough entered =
      let fewer = drops_last front last e l in
      let (q, e', w) = set_data_size-Shrunk in
      let few : length q.objects ≡ length kept = ap length w.objects in
      let end : (q.data_pos + object_size) % 2 ^ 32 ≡ q.data_pos + object_size =
        omega (arith, w.pos, enough, v.small) in
      let room : leb (q.data_pos + object_size) q.data_capacity ≡ true =
        ground (arith, w.pos, enough, w.capacity) in
      let free : ltb (length q.objects) q.objects_capacity ≡ true =
        ground (arith, few, fewer, roomy, w.objects_capacity) in
      let full : ltb (length q.objects) q.objects_room ≡ false =
        ground (arith, few, w.room fewer) in
      (q, e', put_overruns h q val null_meta_data end room free entered full)
