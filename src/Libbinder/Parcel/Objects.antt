-- ===== src/Libbinder/Parcel/Objects.antt =====
-- An object that writeObject of src/lib/binder/Parcel.cpp has written is what readObject gives.
use cdroid.Libbinder.Parcel.Flat.{IsFlat}
use cdroid.Libbinder.Parcel.Entering.{
  IsObjects, WroteObject, write_object-Put, get_or-append_end, append-IsAscending,
}
use cdroid.Libbinder.Parcel.Reading.{read_object}
use cdroid.Libbinder.Parcel.Looking.{IsEntry, read_object-Looked}
use cdroid.Libbinder.Parcel.Hint.{IsAscending}
use cdroid.Libbinder.Parcel.Sound.{IsSound}
use cdroid.Libbinder.Parcel.Growth.{is_fd}
use cdroid.Libbinder.Parcel.Writing.{write_object}
use cdroid.Libbinder.Parcel.{
  no_memory, Heap, no_error, fds_not_allowed, Parcel, done, object_size, object_at,
  FlatBinderObject, acquire_object,
}
use cdroid.Prelude.{
  sym, some, subst, ℕ, ◌≡◌, ◌<◌, ◌+◌, ◌^◌, ◌⊎◌, ◌&&◌, not, inl, inr, Bool, true, false, arith, ◌==◌,
  ap, ◌∙◌, [], ◌∷◌, length, get_or, length-append,
}

module _ (p q : Parcel) (o : IsObjects p) (val : FlatBinderObject) (w : WroteObject p val q) where
  objects-IsAscending : IsAscending q.objects
  objects-IsAscending =
      subst IsAscending (sym w.objects)
        (append-IsAscending p.objects p.data_pos o.ascending o.before)

  -- The parcel at the position where the object was written, with any hint.
  abbrev back_at : ℕ → Parcel
  back_at hint = record q { data_pos = p.data_pos; next_object_hint = hint }

  entry : (hint : ℕ) → IsEntry (back_at hint)
  entry hint = (
    length p.objects,
    omega (arith, ap length w.objects, length-append p.objects (p.data_pos ∷ [])),
    ap (λ os. get_or os (length p.objects) 0) w.objects ∙ get_or-append_end p.objects p.data_pos,
  )

  reads_back :
      (hint : ℕ) (null_meta_data : Bool)
      → (t : Parcel) × (read_object (back_at hint) null_meta_data ≡ done (some val, t))
        × (t.data_pos ≡ q.data_pos)
  unfolding object_at
  reads_back hint null_meta_data =
      let (obj, t, here, moved, looked) =
        read_object-Looked (back_at hint) (omega (arith, w.moved, w.reached)) w.held w.small
          objects-IsAscending null_meta_data in
      let same : obj ≡ val = cc (here, w.at) in
      elim looked [
        | inl (e, _) ↦ (t, e ∙ ap (λ x. done (some x, t)) same, moved ∙ sym w.moved)
        | inr (_, none_there) ↦ absurd (none_there (inl (entry hint)))
      ]

-- writeObject of an object of 32-bit fields that is entered among the objects, on a parcel that
-- owns its data and stands within it, with its objects in order before its position, fewer than
-- 2^29 of them, not more capacity for objects than their memory has room, and a data size that
-- leaves room for an object below 2^30, fails with NO_MEMORY; or with FDS_NOT_ALLOWED, and then
-- the object is a file descriptor and the parcel allows none; or returns NO_ERROR, has acquired
-- the object once, and readObject from that position gives the same object and ends where the
-- write ended, whatever the hint of the last search and whether or not null objects are looked
-- for.
pub read_object-write_object :
    (h : Heap) (p : Parcel) (val : FlatBinderObject) (null_meta_data : Bool)
    → IsSound p
    → IsObjects p
    → IsFlat val
    → (not null_meta_data && val.binder == 0) ≡ false
    → p.data_size + object_size < 2 ^ 30
    → length p.objects < 2 ^ 29
    → (hint : ℕ) (null_read : Bool)
    → ((q : Parcel) × (write_object h p val null_meta_data ≡ done (no_memory, q)))
      ⊎ ((q : Parcel) × (write_object h p val null_meta_data ≡ done (fds_not_allowed, q))
          × (is_fd val ≡ true)
          × (p.allow_fds ≡ false))
      ⊎ ((q : Parcel) × (write_object h p val null_meta_data ≡ done (no_error, q))
          × (q.refs ≡ acquire_object val ∷ p.refs)
          × (t : Parcel) × (read_object
                (record q { data_pos = p.data_pos; next_object_hint = hint })
                null_read
              ≡ done (some val, t))
          × (t.data_pos ≡ q.data_pos))
read_object-write_object h p val null_meta_data v o f entered few count hint null_read =
    elim (write_object-Put p v o val f null_meta_data entered h few count) [
      | inl none_left ↦ inl none_left
      | inr (inl refused) ↦ inr (inl refused)
      | inr (inr (q, e, w)) ↦
          let (t, e', at) = reads_back p q o val w hint null_read in
          inr (inr (q, e, w.acquired, t, e', at))
    ]
