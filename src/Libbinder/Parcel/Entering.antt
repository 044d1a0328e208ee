-- ===== src/Libbinder/Parcel/Entering.antt =====
-- writeObject of src/lib/binder/Parcel.cpp enters an object behind the others.
use cdroid.Libbinder.Parcel.Flat.{
  written_type, written_flags, written_binder, written_cookie, IsFlat,
}
use cdroid.Libbinder.Parcel.Hint.{IsAscending}
use cdroid.Libbinder.Parcel.Sound.{make_room-Room, IsSound, IsGrown}
use cdroid.Libbinder.Parcel.Growth.{is_fd}
use cdroid.Libbinder.Parcel.Writing.{
  grow_objects, write_object, put_object, write_flat, finish_write,
}
use cdroid.Libbinder.Parcel.{
  no_memory, Heap, Status, no_error, fds_not_allowed, Parcel, Access, done, object_size, object_at,
  FlatBinderObject, acquire_object,
}
use cdroid.Memory.{read32}
use cdroid.Prelude.{
  ◌/◌, ◌*◌, zero, suc, ℕ, ◌≡◌, ◌≤◌, ◌<◌, ◌+◌, ◌%◌, ◌^◌, ◌⊎◌, ◌&&◌, not, inl, inr, Bool, Bool-cases,
  true, false, arith, refl, ltb, leb, ◌==◌, if◌then◌else◌, ap, ◌∙◌, List, [], ◌∷◌, ◌++◌, length,
  get_or, length-append,
}

-- Where objects lie in order before the position, and their memory has the room it should have.
pub record IsObjects (p : Parcel) : Type 0 where
  pub ascending : IsAscending p.objects
  pub before : (i : ℕ) → i < length p.objects → get_or p.objects i 0 < p.data_pos
  pub roomy : p.objects_capacity ≤ p.objects_room

get_or-append_left :
    (xs : List ℕ) (x i : ℕ) → i < length xs → get_or (xs ++ x ∷ []) i 0 ≡ get_or xs i 0
get_or-append_left [] x i l = absurd (omega arith)
get_or-append_left (y ∷ ys) x zero l = refl
get_or-append_left (y ∷ ys) x (suc i) l = get_or-append_left ys x i (omega arith)

pub get_or-append_end : (xs : List ℕ) (x : ℕ) → get_or (xs ++ x ∷ []) (length xs) 0 ≡ x
get_or-append_end [] x = refl
get_or-append_end (y ∷ ys) x = get_or-append_end ys x

-- An entry behind all others keeps the order.
pub append-IsAscending :
    (xs : List ℕ) (x : ℕ)
    → IsAscending xs
    → ((i : ℕ) → i < length xs → get_or xs i 0 < x)
    → IsAscending (xs ++ x ∷ [])
append-IsAscending xs x asc low i j l u = elim (Bool-cases (ltb j (length xs))) [
  | inl inside ↦
      let l' : j < length xs = ground (arith, inside) in
      omega (
        arith,
        get_or-append_left xs x i (omega (arith, l, l')),
        get_or-append_left xs x j l',
        asc i j l l',
      )
  | inr at_end ↦
      let len = length-append xs (x ∷ []) in
      let same : j ≡ length xs = ground (arith, at_end, len) in
      let here : get_or (xs ++ x ∷ []) j 0 ≡ x =
        ap (λ j. get_or (xs ++ x ∷ []) j 0) same ∙ get_or-append_end xs x in
      omega (
        arith,
        here,
        get_or-append_left xs x i (omega (arith, l, same)),
        low i (omega (arith, l, same)),
      )
]

-- Behind a writeObject that has entered the object.
pub record WroteObject (p : Parcel) (val : FlatBinderObject) (q : Parcel) : Type 0 where
  pub moved : q.data_pos ≡ p.data_pos + object_size
  pub reached : q.data_pos ≤ q.data_size
  pub held : q.data_size ≤ q.data_capacity
  pub small : q.data_capacity < 2 ^ 32
  pub at : object_at q p.data_pos ≡ done val
  pub objects : q.objects ≡ p.objects ++ p.data_pos ∷ []
  pub acquired : q.refs ≡ acquire_object val ∷ p.refs

module _ (p : Parcel) (v : IsSound p) (o : IsObjects p) (val : FlatBinderObject) (f : IsFlat val)
    (null_meta_data : Bool) (entered : (not null_meta_data && val.binder == 0) ≡ false) where
  -- What is put, where there is room for the data and the entry.
  abbrev Put : Parcel → Access (Status × Parcel) → Type 0
  Put r result =
      ((q : Parcel) × (result ≡ done (fds_not_allowed, q))
        × (is_fd val ≡ true)
        × (p.allow_fds ≡ false))
      ⊎ ((q : Parcel) × (result ≡ done (no_error, q)) × WroteObject p val q)

  object_is :
      (t : Parcel) (mem : ℕ → ℕ) (a : ℕ)
      → a + object_size ≤ t.data_capacity
      → t.bytes ≡ write_flat mem a val
      → object_at t a ≡ done val
  unfolding object_at
  object_is t mem a l e =
      let fits : leb (a + object_size) t.data_capacity ≡ true = ground (arith, l) in
      let word =
        λ (b n : ℕ) (h : read32 (write_flat mem a val) b ≡ n). ap (λ m. read32 m b) e ∙ h in
      rw
        (
          fits,
          word a val.type (written_type mem a val f),
          word (a + 4) val.flags (written_flags mem a val f),
          word (a + 8) val.binder (written_binder mem a val f),
          word (a + 12) val.cookie (written_cookie mem a val f),
        )
        refl

  module _ (r : Parcel) (w : IsSound r) (g : IsGrown p r)
      (enough : p.data_pos + object_size ≤ r.data_capacity) where
    wrote :
        (t : Parcel)
        → t.data_pos ≡ r.data_pos
        → t.data_size ≡ r.data_size
        → t.data_capacity ≡ r.data_capacity
        → t.bytes ≡ write_flat r.bytes r.data_pos val
        → t.objects ≡ r.objects ++ r.data_pos ∷ []
        → t.refs ≡ acquire_object val ∷ r.refs
        → WroteObject p val (finish_write t object_size)
    unfolding finish_write
    wrote t pos size capacity bytes objects refs =
        let no_wrap : (t.data_pos + object_size) % 2 ^ 32 ≡ p.data_pos + object_size =
          omega (arith, enough, w.small, pos, g.same_pos) in
        record {
          moved = no_wrap;
          reached = ground arith;
          held = ground (arith, no_wrap, enough, capacity, size, w.held);
          small = omega (arith, capacity, w.small);
          at =
              object_is (finish_write t object_size) r.bytes p.data_pos
                (omega (arith, enough, capacity))
                (bytes ∙ ap (λ a. write_flat r.bytes a val) g.same_pos);
          objects =
              objects
              ∙ ap (λ os. os ++ r.data_pos ∷ []) g.same_objects
              ∙ ap (λ a. p.objects ++ a ∷ []) g.same_pos;
          acquired = refs ∙ ap (λ rs. acquire_object val ∷ rs) g.same_refs;
        }

  put_object-Put :
      (r : Parcel)
      → IsSound r
      → IsGrown p r
      → p.data_pos + object_size ≤ r.data_capacity
      → (room : ℕ) (capacity : ℕ) → length p.objects < room
      → Put r (
          put_object
            (record r { objects_capacity = capacity; objects_room = room })
            val
            null_meta_data)
  unfolding finish_write object_at
  put_object-Put r w g enough room capacity free =
      let s = record r { objects_capacity = capacity; objects_room = room } in
      let fits : leb (r.data_pos + object_size) r.data_capacity ≡ true =
        ground (arith, enough, g.same_pos) in
      let entry : ltb (length r.objects) room ≡ true =
        ap (λ os. ltb (length os) room) g.same_objects ∙ ground (arith, free) in
      let written = record s {
        bytes = write_flat r.bytes r.data_pos val;
        objects = r.objects ++ r.data_pos ∷ [];
        refs = acquire_object val ∷ r.refs;
      } in
      elim (Bool-cases (is_fd val && not r.allow_fds)) [
        | inl refused ↦ inl (
          written,
          rw (fits, entered, entry, refused) refl,
          ground (arith, refused),
          ground (arith, refused, g.same_fds),
        )
        | inr fine ↦ inr (
          finish_write
              (if is_fd val then record written { has_fds = true; fds_known = true } else written)
              object_size,
          rw (fits, entered, entry, fine) refl,
          by_kind (is_fd val) written refl refl refl refl refl refl,
        )
      ]
    where
      by_kind :
          (fd : Bool) (t : Parcel)
          → t.data_pos ≡ r.data_pos
          → t.data_size ≡ r.data_size
          → t.data_capacity ≡ r.data_capacity
          → t.bytes ≡ write_flat r.bytes r.data_pos val
          → t.objects ≡ r.objects ++ r.data_pos ∷ []
          → t.refs ≡ acquire_object val ∷ r.refs
          → WroteObject p val (
              finish_write
                (if fd then record t { has_fds = true; fds_known = true } else t)
                object_size)
      by_kind true t a b c d e h =
          wrote r w g enough (record t { has_fds = true; fds_known = true }) a b c d e h
      by_kind false t a b c d e h = wrote r w g enough t a b c d e h

  -- The array of the objects grows where it is full.
  grow_objects_cases :
      (h : Heap) (r : Parcel)
      → length r.objects < 2 ^ 29
      → ((grow_objects h r ≡ done (no_memory, r)))
        ⊎ ((n : ℕ) × (length r.objects < n)
            × (grow_objects h r
                ≡ done (no_error, record r { objects_capacity = n; objects_room = n })))
  grow_objects_cases h r few =
      let n = (length r.objects + 2) * 3 % 2 ^ 32 / 2 in
      elim (Bool-cases (h.room (n * 4 % 2 ^ 32))) [
        | inl room ↦ inr (n, omega (arith, few), rw room refl)
        | inr none_left ↦ inl (rw none_left refl)
      ]

  -- writeObject fails, or enters the object behind the others.
  pub write_object-Put :
      (h : Heap)
      → p.data_size + object_size < 2 ^ 30
      → length p.objects < 2 ^ 29
      → ((q : Parcel) × (write_object h p val null_meta_data ≡ done (no_memory, q)))
        ⊎ Put p (write_object h p val null_meta_data)
  unfolding write_object
  write_object-Put h few count = elim (make_room-Room h p v object_size few) [
    | inl none_left ↦ inl (record p { error = no_memory }, rw none_left refl)
    | inr (r, e, w, g, enough) ↦
        let len : length r.objects ≡ length p.objects = ap length g.same_objects in
        elim (Bool-cases (ltb (length p.objects) p.objects_capacity)) [
          | inl free ↦
              let put =
                put_object-Put r w g enough r.objects_room r.objects_capacity
                  (ground (arith, free, o.roomy, g.same_room)) in
              inr (rw (e, free) put)
          | inr full ↦ elim (grow_objects_cases h r (omega (arith, count, len))) [
            | inl none_left ↦ inl (r, rw (e, full, none_left) refl)
            | inr (n, more, grown) ↦
                inr
                  (rw (e, full, grown) (put_object-Put r w g enough n n (omega (arith, more, len))))
          ]
        ]
  ]
