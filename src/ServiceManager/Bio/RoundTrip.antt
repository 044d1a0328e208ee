-- ===== src/ServiceManager/Bio/RoundTrip.antt =====
-- A message that is sent is read back.
use cdroid.ServiceManager.Bio.Reading.{Ready, get_items_lem}
use cdroid.ServiceManager.Bio.Writing.{put_item-Wrote}
use cdroid.Memory.{
  read32-write32, write32_above, write32_below, write32, read32, read16_same, read16s_same,
  read32_same,
}
use cdroid.Prelude.{
  ◌^◌, ◌%◌, map, ◌*◌, ltb, append_assoc, ap, subst, ◌∙◌, append-nil, inr, sym, inl, Bool-cases,
  false, ℕ, ◌+◌, ◌<◌, ◌≡◌, refl, List, [], ◌∷◌, ◌++◌, true, All, length, ◌==◌, arith, ◌≤◌,
}
use cdroid.ServiceManager.Bio.{
  type_handle, translate_object, Translation, translate_objects, call_txn, bio_init_from_txn,
  bio_init, has_offset, BinderIo,
}
use cdroid.ServiceManager.Bio.Items.{
  a_handle, a_text, a_word, delivered, own_place, IsDelivered, places, kind_of, get_items, put_item,
  put_items, LieUpTo, item_size, IsItem, Item, word, text, handle, Lies,
}

has_offset-append :
    (xs ys : List ℕ) (p : ℕ)
    → has_offset (length xs) p xs ≡ true
    → has_offset (length (xs ++ ys)) p (xs ++ ys) ≡ true
has_offset-append [] ys p h = cc
has_offset-append (x ∷ xs) ys p h = elim (Bool-cases (x == p)) [
  | inl e ↦ rw e refl
  | inr e ↦ rw e (has_offset-append xs ys p (ground (arith, h)))
]

-- An item stays where it lies when what is written later is behind it.
Lies-frame :
    (mem mem' : ℕ → ℕ) (offs more : List ℕ) (pos : ℕ) (i : Item)
    → IsItem i
    → ((a : ℕ) → a < pos + item_size i → mem' a ≡ mem a)
    → Lies mem offs pos i
    → Lies mem' (offs ++ more) pos i
Lies-frame mem mem' offs more pos (word n) v kept h =
    read32_same mem mem' pos (λ a l k. kept a k) ∙ h
Lies-frame mem mem' offs more pos (text us) v kept h = (
  read32_same mem mem' pos (λ a l k. kept a (omega (arith, k))) ∙ h.0,
  read16s_same (length us) mem mem' (pos + 4) (λ a l k. kept a (omega (arith, k, v.2))) ∙ h.1,
  read16_same mem mem' (pos + 4 + 2 * length us) (λ a l k. kept a (omega (arith, k, v.2))) ∙ h.2,
)
Lies-frame mem mem' offs more pos (handle p) v kept h = (
  read32_same mem mem' pos (λ a l k. kept a (omega (arith, k))) ∙ h.0,
  read32_same mem mem' (pos + 8) (λ a l k. kept a (omega (arith, k))) ∙ h.1,
  has_offset-append offs more pos h.2,
)

-- Behind the writes of some items that did not overflow.
record WroteAll (w t : BinderIo) (is : List Item) : Type 0 where
  before : w.overflow ≡ false
  lie : LieUpTo t.memory t.offs w.data_at is t.data_at
  reached : w.data_at ≤ t.data_at
  kept : (a : ℕ) → a < w.data_at → t.memory a ≡ w.memory a
  grown : t.offs ≡ w.offs ++ places w.data_at is

put_items-WroteAll :
    (is : List Item) (w : BinderIo)
    → All IsItem is
    → (put_items w is).overflow ≡ false
    → WroteAll w (put_items w is) is
put_items-WroteAll [] w v h = record {
  before = h;
  lie = refl;
  reached = omega arith;
  kept = λ a l. refl;
  grown = sym (append-nil w.offs);
}
put_items-WroteAll (i ∷ is) w v h =
    let rest = put_items-WroteAll is (put_item w i) v.1 h in
    let first = put_item-Wrote w i v.0 rest.before in
    let t = put_items (put_item w i) is in
    let more = places (put_item w i).data_at is in
    let e = rest.grown in
    record {
      before = first.before;
      lie = (
        subst (λ offs. Lies t.memory offs w.data_at i) (sym e)
            (Lies-frame (put_item w i).memory t.memory (put_item w i).offs more w.data_at i v.0
              (λ a l. rest.kept a (omega (arith, l, first.place))) first.lies),
        subst (λ pos. LieUpTo t.memory t.offs pos is t.data_at) first.place rest.lie,
      );
      reached = omega (arith, rest.reached, first.place);
      kept = λ a l. rest.kept a (omega (arith, l, first.place)) ∙ first.kept a l;
      grown =
          e
          ∙ ap (λ xs. xs ++ more) first.grown
          ∙ append_assoc w.offs (own_place w.data_at i) more
          ∙ ap (λ a. w.offs ++ (own_place w.data_at i ++ places a is)) first.place;
    }

-- A new message has nothing in it.
init_empty :
    (bio : BinderIo) (maxdata maxoffs : ℕ)
    → (bio_init bio maxdata maxoffs).overflow ≡ false
    → ((bio_init bio maxdata maxoffs).data_at ≡ 0) × ((bio_init bio maxdata maxoffs).offs ≡ [])
unfolding bio_init
init_empty bio maxdata maxoffs = elim (Bool-cases (ltb maxdata (maxoffs * 4 % 2 ^ 32))) [
  | inl e ↦ rw e (λ h. cc)
  | inr e ↦ rw e (λ h. (refl, refl))
]

-- The driver changes nothing before the first object.
translate-below :
    (give : Translation) (is : List Item) (pos : ℕ) (mem : ℕ → ℕ) (a : ℕ)
    → a < pos
    → translate_objects give (places pos is) mem a ≡ mem a
unfolding translate_objects
translate-below give [] pos mem a l = refl
translate-below give (word n ∷ is) pos mem a l =
    translate-below give is (pos + 4) mem a (omega (arith, l))
translate-below give (text us ∷ is) pos mem a l =
    translate-below give is (pos + item_size (text us)) mem a (omega (arith, l))
translate-below give (handle p ∷ is) pos mem a l =
    let new = give (read32 mem pos) (read32 mem (pos + 8)) in
    let m1 = write32 mem pos new.0 in
    let m2 = write32 m1 (pos + 8) new.1 in
    translate-below give is (pos + 16) (translate_object give mem pos) a (omega (arith, l))
    ∙ write32_below m2 (pos + 12) new.2 a (omega (arith, l))
    ∙ write32_below m1 (pos + 8) new.1 a (omega (arith, l))
    ∙ write32_below mem pos new.0 a l

-- Items stay where they lie when what is behind their start is kept.
Lies-behind :
    (mem mem' : ℕ → ℕ) (offs : List ℕ) (pos : ℕ) (i : Item)
    → ((a : ℕ) → pos ≤ a → mem' a ≡ mem a)
    → Lies mem offs pos i
    → Lies mem' offs pos i
Lies-behind mem mem' offs pos (word n) kept h = read32_same mem mem' pos (λ a l k. kept a l) ∙ h
Lies-behind mem mem' offs pos (text us) kept h = (
  read32_same mem mem' pos (λ a l k. kept a l) ∙ h.0,
  read16s_same (length us) mem mem' (pos + 4) (λ a l k. kept a (omega (arith, l))) ∙ h.1,
  read16_same mem mem' (pos + 4 + 2 * length us) (λ a l k. kept a (omega (arith, l))) ∙ h.2,
)
Lies-behind mem mem' offs pos (handle p) kept h = (
  read32_same mem mem' pos (λ a l k. kept a l) ∙ h.0,
  read32_same mem mem' (pos + 8) (λ a l k. kept a (omega (arith, l))) ∙ h.1,
  h.2,
)

LieUpTo-behind :
    (mem mem' : ℕ → ℕ) (offs : List ℕ) (is : List Item) (pos stop : ℕ)
    → ((a : ℕ) → pos ≤ a → mem' a ≡ mem a)
    → LieUpTo mem offs pos is stop
    → LieUpTo mem' offs pos is stop
LieUpTo-behind mem mem' offs [] pos stop kept h = h
LieUpTo-behind mem mem' offs (i ∷ is) pos stop kept h = (
  Lies-behind mem mem' offs pos i kept h.0,
  LieUpTo-behind mem mem' offs is (pos + item_size i) stop (λ a l. kept a (omega (arith, l))) h.1,
)

-- What an object holds when the driver has rewritten it.
translated :
    (give : Translation) (mem : ℕ → ℕ) (offs : List ℕ) (pos p : ℕ)
    → Lies mem offs pos (handle p)
    → IsDelivered give (handle p)
    → Lies (translate_object give mem pos) offs pos (delivered give (handle p))
translated give mem offs pos p h d =
    let new = give (read32 mem pos) (read32 mem (pos + 8)) in
    let is_new : new ≡ give type_handle p =
      ap (λ t. give t (read32 mem (pos + 8))) h.0 ∙ ap (give type_handle) h.1 in
    let type : new.0 ≡ type_handle = ap (λ t. t.0) is_new ∙ d.0 in
    let ptr : new.1 ≡ (give type_handle p).1 = ap (λ t. t.1) is_new in
    let m1 = write32 mem pos new.0 in
    let m2 = write32 m1 (pos + 8) new.1 in
    let m3 = write32 m2 (pos + 12) new.2 in
    (
      read32_same m2 m3 pos (λ i l k. write32_below m2 (pos + 12) new.2 i (omega (arith, k)))
          ∙ read32_same m1 m2 pos (λ i l k. write32_below m1 (pos + 8) new.1 i (omega (arith, k)))
          ∙ read32-write32 mem pos new.0 (rw type (omega arith))
          ∙ type,
      read32_same m2 m3 (pos + 8) (λ i l k. write32_below m2 (pos + 12) new.2 i (omega (arith, k)))
          ∙ read32-write32 m1 (pos + 8) new.1 (rw ptr d.1.1)
          ∙ ptr,
      h.2,
    )

-- The items lie there as the driver delivers them.
translated_all :
    (give : Translation) (is : List Item) (offs : List ℕ) (pos stop : ℕ) (mem : ℕ → ℕ)
    → All IsItem is
    → All (IsDelivered give) is
    → LieUpTo mem offs pos is stop
    → LieUpTo (translate_objects give (places pos is) mem) offs pos (map (delivered give) is) stop
unfolding translate_objects
translated_all give [] offs pos stop mem v d h = h
translated_all give (word n ∷ is) offs pos stop mem v d h = (
  read32_same mem _ pos (λ a l k. translate-below give is (pos + 4) mem a k) ∙ h.0,
  translated_all give is offs (pos + 4) stop mem v.1 d.1 h.1,
)
translated_all give (text us ∷ is) offs pos stop mem v d h =
    let next = pos + item_size (text us) in
    let mem' = translate_objects give (places next is) mem in
    let same = translate-below give is next mem in
    (
      (
        read32_same mem mem' pos (λ a l k. same a (omega (arith, k))) ∙ h.0.0,
        read16s_same (length us) mem mem' (pos + 4) (λ a l k. same a (omega (arith, k, v.0.2)))
            ∙ h.0.1,
        read16_same mem mem' (pos + 4 + 2 * length us) (λ a l k. same a (omega (arith, k, v.0.2)))
            ∙ h.0.2,
      ),
      translated_all give is offs next stop mem v.1 d.1 h.1,
    )
translated_all give (handle p ∷ is) offs pos stop mem v d h =
    let new = give (read32 mem pos) (read32 mem (pos + 8)) in
    let m1 = write32 mem pos new.0 in
    let m2 = write32 m1 (pos + 8) new.1 in
    let m3 = translate_object give mem pos in
    let mem' = translate_objects give (places (pos + 16) is) m3 in
    let (type, ptr, off) = translated give mem offs pos p h.0 d.0 in
    let same = translate-below give is (pos + 16) m3 in
    (
      (
        read32_same m3 mem' pos (λ a l k. same a (omega (arith, k))) ∙ type,
        read32_same m3 mem' (pos + 8) (λ a l k. same a (omega (arith, k))) ∙ ptr,
        off,
      ),
      translated_all give is offs (pos + 16) stop m3 v.1 d.1 (
          LieUpTo-behind mem m3 offs is (pos + 16) stop
            (λ a l.
              write32_above m2 (pos + 12) new.2 a (omega (arith, l))
              ∙ write32_above m1 (pos + 8) new.1 a (omega (arith, l))
              ∙ write32_above mem pos new.0 a (omega (arith, l)))
            h.1),
    )

delivered-IsItem :
    (give : Translation) (is : List Item)
    → All IsItem is
    → All (IsDelivered give) is
    → All IsItem (map (delivered give) is)
delivered-IsItem give [] v d = tt
delivered-IsItem give (word n ∷ is) v d = (v.0, delivered-IsItem give is v.1 d.1)
delivered-IsItem give (text us ∷ is) v d = (v.0, delivered-IsItem give is v.1 d.1)
delivered-IsItem give (handle p ∷ is) v d = (d.0.1, delivered-IsItem give is v.1 d.1)

kinds_delivered :
    (give : Translation) (is : List Item) → map kind_of (map (delivered give) is) ≡ map kind_of is
kinds_delivered give [] = refl
kinds_delivered give (word n ∷ is) = ap (λ ks. a_word ∷ ks) (kinds_delivered give is)
kinds_delivered give (text us ∷ is) = ap (λ ks. a_text ∷ ks) (kinds_delivered give is)
kinds_delivered give (handle p ∷ is) = ap (λ ks. a_handle ∷ ks) (kinds_delivered give is)

-- The items of a message that did not overflow lie in the transaction as the driver delivers them.
sent-LieUpTo :
    (bio : BinderIo) (maxdata maxoffs : ℕ) (give : Translation) (is : List Item)
    → All IsItem is
    → All (IsDelivered give) is
    → (put_items (bio_init bio maxdata maxoffs) is).overflow ≡ false
    → let m = put_items (bio_init bio maxdata maxoffs) is in
      LieUpTo (translate_objects give m.offs m.memory) m.offs 0 (map (delivered give) is) m.data_at
sent-LieUpTo bio maxdata maxoffs give is v d h =
    let w = bio_init bio maxdata maxoffs in
    let m = put_items w is in
    let wrote = put_items-WroteAll is w v h in
    let (start, none_yet) = init_empty bio maxdata maxoffs wrote.before in
    let offs : m.offs ≡ places 0 is =
      wrote.grown
      ∙ ap (λ xs. xs ++ places w.data_at is) none_yet
      ∙ ap (λ pos. places pos is) start in
    let lie = subst (λ pos. LieUpTo m.memory m.offs pos is m.data_at) start wrote.lie in
    subst
      (λ os.
        LieUpTo (translate_objects give os m.memory) m.offs 0 (map (delivered give) is) m.data_at)
      (sym offs) (translated_all give is m.offs 0 m.data_at m.memory v d lie)

-- The receiver of a message that did not overflow stands before its items.
pub sent-Ready :
    (bio : BinderIo) (maxdata maxoffs : ℕ) (give : Translation) (target code uid : ℕ)
    (is : List Item)
    → All IsItem is
    → All (IsDelivered give) is
    → (put_items (bio_init bio maxdata maxoffs) is).overflow ≡ false
    → Ready
        (bio_init_from_txn
          (call_txn give (put_items (bio_init bio maxdata maxoffs) is) target code uid))
        (map (delivered give) is)
unfolding bio_init_from_txn call_txn
sent-Ready bio maxdata maxoffs give target code uid is v d h = record {
  valid = delivered-IsItem give is v d;
  stop = (put_items (bio_init bio maxdata maxoffs) is).data_at;
  room = omega arith;
  full = omega arith;
  lie = sent-LieUpTo bio maxdata maxoffs give is v d h;
}

-- A message of words, strings and references that is written into a new struct binder_io by the
-- bio_put_ functions and has not overflowed is read back by the bio_get_ functions from the
-- transaction that it is delivered in, item by item in the same order: words and strings as they
-- were, and for each reference the one that the driver gives the receiver for it, whatever these
-- are; the reader has not overflowed and nothing is left. Words and references fit 32 bits, units
-- 16, a string has no NUL and is shorter than the limit, no reference is null, before or behind
-- the driver, and none is to an object of the receiver's own.
pub get_items-put_items :
    (bio : BinderIo) (maxdata maxoffs : ℕ) (give : Translation) (target code uid : ℕ)
    (is : List Item)
    → All IsItem is
    → All (IsDelivered give) is
    → (put_items (bio_init bio maxdata maxoffs) is).overflow ≡ false
    → (t : BinderIo) × (get_items
          (bio_init_from_txn
            (call_txn give (put_items (bio_init bio maxdata maxoffs) is) target code uid))
          (map kind_of is)
        ≡ (map (delivered give) is, t))
      × (t.overflow ≡ false)
      × (t.data_avail ≡ 0)
unfolding bio_init_from_txn call_txn
get_items-put_items bio maxdata maxoffs give target code uid is v d h =
    let m = put_items (bio_init bio maxdata maxoffs) is in
    let r = bio_init_from_txn (call_txn give m target code uid) in
    let (t, e, at, total, flag) =
      get_items_lem (map (delivered give) is) r m.data_at (delivered-IsItem give is v d)
        (omega arith) (omega arith) (sent-LieUpTo bio maxdata maxoffs give is v d h) in
    (t, ap (get_items r) (sym (kinds_delivered give is)) ∙ e, flag, omega (arith, at, total))
