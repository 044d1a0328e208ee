-- ===== src/Libbinder/Parcel/Inside.antt =====
-- What the read functions of src/lib/binder/Parcel.cpp can reach, and sizes that wrap.
use cdroid.Libbinder.Parcel.Reading.{
  find_object, look_up, fits_int, read, read_string8, read_object, copy_bytes, bytes_at, read_int32,
  read_aligned32, read_int64, read_inplace, or_zero,
}
use cdroid.Libbinder.Parcel.{
  false, FlatBinderObject, no_error, object_size, [], not_enough_data, Parcel, Access, done, ◌>>=◌,
  pad_size,
}
use cdroid.Libbinder.Parcel.Looking
use cdroid.Memory.{read32}
use cdroid.Prelude.{
  [], Option-cases, sym, subst, ◌==◌, not, ap, Bool, ◌∙◌, ℕ, ◌≡◌, ◌≤◌, ◌<◌, ◌+◌, ◌*◌, ◌-◌, ◌%◌, ◌^◌,
  ◌⊎◌, ◌&&◌, inl, inr, Bool-cases, true, arith, refl, leb, some, none, Option,
}

-- A parcel that stands within its data.
pub record IsInside (p : Parcel) : Type 0 where
  pub ordered : p.data_pos ≤ p.data_size
  pub held : p.data_size ≤ p.data_capacity
  pub small : p.data_capacity < 2 ^ 31

-- A read that ends within the same data.
abbrev pub Stays {ℓ} : {A : Type ℓ} → Parcel → Access (A × Parcel) → Type ℓ
Stays {A = A} p r =
    (x : A) × (q : Parcel) × (r ≡ done (x, q))
    × IsInside q
    × (p.data_pos ≤ q.data_pos)
    × (q.bytes ≡ p.bytes)
    × (q.data_size ≡ p.data_size)

look_up-cases :
    (p : Parcel) (pos : ℕ) (obj : FlatBinderObject) (null_meta_data : Bool)
    → ((o : Option FlatBinderObject) × (look_up p pos obj null_meta_data ≡ (o, p)))
      ⊎ ((o : Option FlatBinderObject) × (i : ℕ) × (look_up p pos obj null_meta_data
            ≡ (o, record p { next_object_hint = i })))
look_up-cases p pos obj null_meta_data =
    elim (Bool-cases (not null_meta_data && obj.cookie == 0 && obj.binder == 0)) [
      | inl null ↦ inl (some obj, rw null refl)
      | inr other ↦ elim (Option-cases (find_object p.objects pos p.next_object_hint)) [
        | inl gone ↦ inl (none, rw (other, gone) refl)
        | inr (i, found) ↦ inr (some obj, i + 1, rw (other, found) refl)
      ]
    ]

module _ (p : Parcel) (v : IsInside p) where
  over-IsInside : (pos : ℕ) → pos ≤ p.data_size → IsInside (record p { data_pos = pos })
  over-IsInside pos l = record { ordered = l; held = v.held; small = v.small }

  read_aligned32-Stays : Stays p (read_aligned32 p)
  unfolding read_aligned32
  read_aligned32-Stays =
      let end : (p.data_pos + 4) % 2 ^ 32 ≡ p.data_pos + 4 =
        omega (arith, v.ordered, v.held, v.small) in
      elim (Bool-cases (leb (p.data_pos + 4) p.data_size)) [
        | inl there ↦
            let held : leb (p.data_pos + 4) p.data_capacity ≡ true =
              ground (arith, there, v.held) in
            (
              some (read32 p.bytes p.data_pos),
              record p { data_pos = p.data_pos + 4 },
              rw (end, there, held) refl,
              over-IsInside (p.data_pos + 4) (ground (arith, there)),
              omega arith,
              refl,
              refl,
            )
        | inr short ↦ (none, p, rw (end, short) refl, v, omega arith, refl, refl)
      ]

  pub read_int32-Stays : Stays p (read_int32 p)
  unfolding read_int32
  read_int32-Stays = let (o, q, e, w, l, b, s) = read_aligned32-Stays in by_value o q e w l b s
    where
      by_value :
          (o : Option ℕ) (q : Parcel)
          → read_aligned32 p ≡ done (o, q)
          → IsInside q
          → p.data_pos ≤ q.data_pos
          → q.bytes ≡ p.bytes
          → q.data_size ≡ p.data_size
          → Stays p (read_aligned32 p >>= λ r. done (or_zero r))
      by_value none q e w l b s = (0, q, rw e refl, w, l, b, s)
      by_value (some n) q e w l b s = (n, q, rw e refl, w, l, b, s)

  pub read_int64-Stays : Stays p (read_int64 p)
  unfolding read_int64
  read_int64-Stays =
      let end : (p.data_pos + 8) % 2 ^ 32 ≡ p.data_pos + 8 =
        omega (arith, v.ordered, v.held, v.small) in
      elim (Bool-cases (leb (p.data_pos + 8) p.data_size)) [
        | inl there ↦
            let held : leb (p.data_pos + 8) p.data_capacity ≡ true =
              ground (arith, there, v.held) in
            (
              read32 p.bytes p.data_pos + 2 ^ 32 * read32 p.bytes (p.data_pos + 4),
              record p { data_pos = p.data_pos + 8 },
              rw (end, there, held) refl,
              over-IsInside (p.data_pos + 8) (ground (arith, there)),
              omega arith,
              refl,
              refl,
            )
        | inr short ↦ (0, p, rw (end, short) refl, v, omega arith, refl, refl)
      ]

  -- Where readInplace gives a place, the bytes that were asked for lie there within the data.
  pub read_inplace-Within :
      (len : ℕ)
      → len ≤ 2 ^ 32 - 4
      → ((q : Parcel) × (read_inplace p len ≡ (some p.data_pos, q))
          × IsInside q
          × (p.data_pos + len ≤ q.data_pos)
          × (q ≡ record p { data_pos = q.data_pos }))
        ⊎ ((read_inplace p len ≡ (none, p)) × (p.data_size < p.data_pos + pad_size len))
  unfolding read_inplace
  read_inplace-Within len few =
      let end = (p.data_pos + pad_size len) % 2 ^ 32 in
      elim (Bool-cases (leb p.data_pos end && leb end p.data_size)) [
        | inl there ↦
            let whole : len ≤ pad_size len = omega (arith, few) in
            let at : end ≡ p.data_pos + pad_size len =
              ground (arith, there, v.ordered, v.held, v.small, few) in
            inl (
              record p { data_pos = end },
              rw there refl,
              over-IsInside end (ground (arith, there)),
              omega (arith, at, whole),
              refl,
            )
        | inr short ↦ inr (rw short refl, ground (arith, short, v.ordered, v.held, v.small, few))
      ]

  pub read-Stays : (len : ℕ) → len ≤ 2 ^ 32 - 4 → Stays p (read p len)
  unfolding read
  read-Stays len few = elim (read_inplace-Within len few) [
    | inr (e, short) ↦ ((not_enough_data, []), p, rw e refl, v, omega arith, refl, refl)
    | inl (q, e, w, room, only) ↦
        let size = ap (λ (x : Parcel). x.data_size) only in
        let capacity = ap (λ (x : Parcel). x.data_capacity) only in
        let held : leb (p.data_pos + len) q.data_capacity ≡ true =
          ground (arith, room, w.ordered, w.held) in
        (
          (no_error, bytes_at q.bytes p.data_pos len),
          q,
          rw e (rw held refl),
          w,
          omega (arith, room),
          ap (λ (x : Parcel). x.bytes) only,
          size,
        )
  ]

  -- What String8 or String16 copies lies within the data that was taken.
  copy_bytes-Stays :
      (len n : ℕ) → len ≤ n → n ≤ 2 ^ 32 - 4 → Stays p (copy_bytes len (read_inplace p n))
  copy_bytes-Stays len n part few = elim (read_inplace-Within n few) [
    | inr (e, short) ↦ ([], p, rw e refl, v, omega arith, refl, refl)
    | inl (q, e, w, room, only) ↦
        let held : leb (p.data_pos + len) q.data_capacity ≡ true =
          ground (arith, room, w.ordered, w.held, part) in
        (
          bytes_at q.bytes p.data_pos len,
          q,
          rw e (rw held refl),
          w,
          omega (arith, room),
          ap (λ (x : Parcel). x.bytes) only,
          ap (λ (x : Parcel). x.data_size) only,
        )
  ]

  read_object_short :
      (null_meta_data : Bool)
      → leb (p.data_pos + object_size) p.data_size ≡ false
      → read_object p null_meta_data ≡ done (none, p)
  unfolding read_object
  read_object_short null_meta_data short =
      let end : (p.data_pos + object_size) % 2 ^ 32 ≡ p.data_pos + object_size =
        omega (arith, v.ordered, v.held, v.small) in
      rw (end, short) refl

  pub read_object-Stays : (null_meta_data : Bool) → Stays p (read_object p null_meta_data)
  read_object-Stays null_meta_data =
      elim (Bool-cases (leb (p.data_pos + object_size) p.data_size)) [
        | inr short ↦ (none, p, read_object_short null_meta_data short, v, omega arith, refl, refl)
        | inl enough ↦
            let there : p.data_pos + object_size ≤ p.data_size = ground (arith, enough) in
            let small : p.data_capacity < 2 ^ 32 = omega (arith, v.small) in
            let obj = Looking.obj p there v.held small in
            let over = Looking.over p there v.held small in
            subst (Stays p) (sym (Looking.read_object_is p there v.held small null_meta_data))
              (elim (look_up-cases over p.data_pos obj null_meta_data) [
                | inl (o, e) ↦ (
                  o,
                  over,
                  ap done e,
                  over-IsInside (p.data_pos + object_size) there,
                  omega arith,
                  refl,
                  refl,
                )
                | inr (o, i, e) ↦ (
                  o,
                  record over { next_object_hint = i },
                  ap done e,
                  record { ordered = there; held = v.held; small = v.small },
                  omega arith,
                  refl,
                  refl,
                )
              ])
      ]

-- A read that follows another.
pub Stays-trans {ℓ κ} :
    {A : Type ℓ} {B : Type κ} (p : Parcel) (r : Access (A × Parcel))
    (rest : A × Parcel → Access (B × Parcel))
    → Stays p r
    → ((x : A) (q : Parcel) → IsInside q → Stays q (rest (x, q)))
    → Stays p (r >>= rest)
Stays-trans p r rest (x, q, e, w, l, b, s) f =
    let (y, t, e', w', l', b', s') = f x q w in
    (y, t, rw e e', w', omega (arith, l, l'), b' ∙ b, s' ∙ s)

pub read_string8-Stays : (p : Parcel) → IsInside p → Stays p (read_string8 p)
unfolding read_string8
read_string8-Stays p v = Stays-trans p (read_int32 p) _ (read_int32-Stays p v) (λ n q w.
    elim (Bool-cases (fits_int n && not (n == 0))) [
      | inl some_bytes ↦
          rw some_bytes (copy_bytes-Stays q w n (n + 1) (omega arith) (ground (arith, some_bytes)))
      | inr empty ↦ ([], q, rw empty refl, w, omega arith, refl, refl)
    ])
