-- ===== src/ServiceManager/Bio/Reading.antt =====
-- What the bio_get_ functions read of a message whose items lie in its buffer.
use cdroid.Memory.{read16, read16s, read32}
use cdroid.Prelude.{
  subst₂, subst, ==_iff, sym, map, false, ap, ltb, ◌∙◌, ℕ, ◌+◌, ◌*◌, ◌%◌, ◌^◌, ◌<◌, ◌≡◌, refl, List,
  [], ◌∷◌, some, true, All, length, ◌==◌, arith, ◌≤◌,
}
use cdroid.ServiceManager.Bio.{
  load_ref, type_handle, has_offset, get_units, max_units, bio_get_obj, object_size, bio_get_ref,
  bio_get_string16, load, round4, advance, bio_get_uint32, BinderIo, bio_get,
}
use cdroid.ServiceManager.Bio.Items.{
  get_items, units_at, LieUpTo, kind_of, get_item, item_size, IsItem, Item, word, text, handle,
  Lies,
}

-- A read of `size` bytes that did not overflow.
pub record Took (r t : BinderIo) (size : ℕ) : Type 0 where
  pub memory : t.memory ≡ r.memory
  pub offs : t.offs ≡ r.offs
  pub place : t.data_at ≡ r.data_at + size
  pub avail : t.data_avail + size ≡ r.data_avail
  pub entries : t.offs_avail ≡ r.offs_avail
  pub overflow : t.overflow ≡ r.overflow

advance-Took : (r : BinderIo) (size : ℕ) → size ≤ r.data_avail → Took r (advance r size) size
advance-Took r size h = record {
  memory = refl;
  offs = refl;
  place = refl;
  avail = omega (arith, h);
  entries = refl;
  overflow = refl;
}

Took-Took : (r s t : BinderIo) (m n : ℕ) → Took r s m → Took s t n → Took r t (m + n)
Took-Took r s t m n h k = record {
  memory = k.memory ∙ h.memory;
  offs = k.offs ∙ h.offs;
  place = omega (arith, k.place, h.place);
  avail = omega (arith, k.avail, h.avail);
  entries = k.entries ∙ h.entries;
  overflow = k.overflow ∙ h.overflow;
}

pub bio_get_room :
    (r : BinderIo) (size : ℕ)
    → round4 size ≤ r.data_avail
    → bio_get r size ≡ (some r.data_at, advance r (round4 size))
unfolding bio_get
bio_get_room r size h =
    let room : ltb r.data_avail (round4 size) ≡ false = ground (arith, h) in rw (bio_get, room) refl

pub get_uint32_room :
    (r : BinderIo) → 4 ≤ r.data_avail → bio_get_uint32 r ≡ (read32 r.memory r.data_at, advance r 4)
unfolding bio_get_uint32
get_uint32_room r h = ap load (bio_get_room r 4 h)

get_string16_room :
    (r : BinderIo) (us : List ℕ)
    → length us < max_units
    → item_size (text us) ≤ r.data_avail
    → read32 r.memory r.data_at ≡ length us
    → bio_get_string16 r ≡ (
      some (r.data_at + 4),
      length us,
      advance (advance r 4) (round4 ((length us + 1) * 2 % 2 ^ 32)),
    )
unfolding bio_get_string16
get_string16_room r us small room h =
    let bytes = (length us + 1) % 2 ^ 32 * 2 % 2 ^ 32 in
    let same : bytes ≡ (length us + 1) * 2 % 2 ^ 32 = omega (arith, small) in
    let tail : bio_get (advance r 4) bytes
        ≡ (some (r.data_at + 4), advance (advance r 4) (round4 ((length us + 1) * 2 % 2 ^ 32))) =
      rw same (bio_get_room (advance r 4) ((length us + 1) * 2 % 2 ^ 32) (omega (arith, room))) in
    ap get_units (get_uint32_room r (omega (arith, room)) ∙ ap (λ n. (n, advance r 4)) h)
    ∙ ap (λ q. (q.0, length us, q.1)) tail

get_ref_room :
    (r : BinderIo) (p : ℕ)
    → object_size ≤ r.data_avail
    → r.offs_avail ≡ length r.offs
    → Lies r.memory r.offs r.data_at (handle p)
    → bio_get_ref r ≡ (p, advance r object_size)
unfolding bio_get_ref bio_get_obj
get_ref_room r p room full (type, ptr, listed) =
    let there : has_offset r.offs_avail r.data_at r.offs ≡ true =
      ap (λ n. has_offset n r.data_at r.offs) full ∙ listed in
    let is_handle : (read32 r.memory r.data_at == type_handle) ≡ true =
      (==_iff (read32 r.memory r.data_at) type_handle).1 type in
    let got : bio_get_obj r ≡ (some r.data_at, advance r object_size) =
      rw (bio_get_obj, there) (bio_get_room r object_size room) in
    ap load_ref got ∙ rw is_handle (ap (λ n. (n, advance r object_size)) ptr)

LieUpTo-le :
    (mem : ℕ → ℕ) (offs : List ℕ) (pos : ℕ) (is : List Item) (stop : ℕ)
    → LieUpTo mem offs pos is stop
    → pos ≤ stop
LieUpTo-le mem offs pos [] stop h = omega (arith, h)
LieUpTo-le mem offs pos (i ∷ is) stop (h, hs) =
    omega (arith, LieUpTo-le mem offs (pos + item_size i) is stop hs)

-- One item is read back.
pub get_item_lem :
    (r : BinderIo) (i : Item)
    → IsItem i
    → item_size i ≤ r.data_avail
    → r.offs_avail ≡ length r.offs
    → Lies r.memory r.offs r.data_at i
    → (t : BinderIo) × (get_item r (kind_of i) ≡ (i, t)) × Took r t (item_size i)
get_item_lem r (word n) v room full h = (
  advance r 4,
  ap (λ q. (word q.0, q.1)) (get_uint32_room r room) ∙ ap (λ m. (word m, advance r 4)) h,
  advance-Took r 4 room,
)
get_item_lem r (text us) v room full h =
    let rest = round4 ((length us + 1) * 2 % 2 ^ 32) in
    (
      advance (advance r 4) rest,
      ap (λ q. (text (units_at q.2 q.0 q.1), q.2)) (get_string16_room r us v.2 room h.0)
          ∙ ap (λ m. (text m, advance (advance r 4) rest)) h.1,
      Took-Took r (advance r 4) (advance (advance r 4) rest) 4 rest
          (advance-Took r 4 (omega (arith, room)))
          (advance-Took (advance r 4) rest (omega (arith, room))),
    )
get_item_lem r (handle p) v room full h = (
  advance r object_size,
  ap (λ q. (handle q.0, q.1)) (get_ref_room r p room full h),
  advance-Took r object_size room,
)

-- The reader stands before these items.
pub record Ready (r : BinderIo) (is : List Item) : Type 0 where
  pub valid : All IsItem is
  pub stop : ℕ
  pub room : stop ≤ r.data_at + r.data_avail
  pub full : r.offs_avail ≡ length r.offs
  pub lie : LieUpTo r.memory r.offs r.data_at is stop

module _ (r : BinderIo) (i : Item) (is : List Item) (ready : Ready r (i ∷ is)) where
  pub Ready_room : item_size i ≤ r.data_avail
  Ready_room = omega (
    arith,
    ready.room,
    LieUpTo-le r.memory r.offs (r.data_at + item_size i) is ready.stop ready.lie.1,
  )

  pub Ready-next : (t : BinderIo) → Took r t (item_size i) → Ready t is
  Ready-next t took = record {
    valid = ready.valid.1;
    stop = ready.stop;
    room = omega (arith, ready.room, took.place, took.avail);
    full = took.entries ∙ ready.full ∙ ap length (sym took.offs);
    lie =
        subst (λ pos. LieUpTo t.memory t.offs pos is ready.stop) (sym took.place)
          (subst₂ (λ mem offs. LieUpTo mem offs (r.data_at + item_size i) is ready.stop)
            (sym took.memory) (sym took.offs) ready.lie.1);
  }

module _ (r : BinderIo) (is : List Item) where
  pub next_word :
      (n : ℕ)
      → Ready r (word n ∷ is)
      → (t : BinderIo) × (bio_get_uint32 r ≡ (n, t)) × Ready t is × (t.memory ≡ r.memory)
  next_word n ready =
      let room = Ready_room r (word n) is ready in
      (
        advance r 4,
        get_uint32_room r room ∙ ap (λ m. (m, advance r 4)) ready.lie.0,
        Ready-next r (word n) is ready (advance r 4) (advance-Took r 4 room),
        refl,
      )

  pub next_text :
      (us : List ℕ)
      → Ready r (text us ∷ is)
      → (p : ℕ) × (t : BinderIo) × (bio_get_string16 r ≡ (some p, length us, t))
        × Ready t is
        × (t.memory ≡ r.memory)
        × (read16s r.memory p (length us) ≡ us)
        × (read16 r.memory (p + 2 * length us) ≡ 0)
  next_text us ready =
      let room = Ready_room r (text us) is ready in
      let rest = round4 ((length us + 1) * 2 % 2 ^ 32) in
      let t = advance (advance r 4) rest in
      (
        r.data_at + 4,
        t,
        get_string16_room r us ready.valid.0.2 room ready.lie.0.0,
        Ready-next r (text us) is ready t (
            Took-Took r (advance r 4) t 4 rest (advance-Took r 4 (omega (arith, room)))
              (advance-Took (advance r 4) rest (omega (arith, room)))),
        refl,
        ready.lie.0.1,
        ready.lie.0.2,
      )

  pub next_handle :
      (p : ℕ)
      → Ready r (handle p ∷ is)
      → (t : BinderIo) × (bio_get_ref r ≡ (p, t)) × Ready t is × (t.memory ≡ r.memory)
  next_handle p ready =
      let room = Ready_room r (handle p) is ready in
      (
        advance r object_size,
        get_ref_room r p room ready.full ready.lie.0,
        Ready-next r (handle p) is ready (advance r object_size) (advance-Took r object_size room),
        refl,
      )

-- All items are read back, and nothing is left but what lies behind them.
pub get_items_lem :
    (is : List Item) (r : BinderIo) (stop : ℕ)
    → All IsItem is
    → stop ≤ r.data_at + r.data_avail
    → r.offs_avail ≡ length r.offs
    → LieUpTo r.memory r.offs r.data_at is stop
    → (t : BinderIo) × (get_items r (map kind_of is) ≡ (is, t))
      × (t.data_at ≡ stop)
      × (t.data_at + t.data_avail ≡ r.data_at + r.data_avail)
      × (t.overflow ≡ r.overflow)
get_items_lem [] r stop v room full h = (r, refl, h, refl, refl)
get_items_lem (i ∷ is) r stop v room full (h, hs) =
    let (t, e, took) =
      get_item_lem r i v.0
        (omega (arith, room, LieUpTo-le r.memory r.offs (r.data_at + item_size i) is stop hs)) full
        h in
    let (u, f, at, total, flag) =
      get_items_lem is t stop v.1 (omega (arith, room, took.place, took.avail))
        (took.entries ∙ full ∙ ap length (sym took.offs))
        (subst (λ pos. LieUpTo t.memory t.offs pos is stop) (sym took.place)
          (subst₂ (λ mem offs. LieUpTo mem offs (r.data_at + item_size i) is stop) (sym took.memory)
            (sym took.offs) hs)) in
    (
      u,
      ap (λ q. let z = get_items q.1 (map kind_of is) in (q.0 ∷ z.0, z.1)) e
          ∙ ap (λ z. (i ∷ z.0, z.1)) f,
      at,
      omega (arith, total, took.place, took.avail),
      flag ∙ took.overflow,
    )
