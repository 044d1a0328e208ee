-- ===== src/Driver/Buffer/Tiling.antt =====
-- The list of buffers as a tiling of the area, and the list primitives at an entry in its middle.
use cdroid.Driver.Buffer.{
  Buffer, sizeof_buffer, get_buffer, set_buffer, list_add, list_del, first, next_of, prev_from,
  next_addr, size_in,
}
use cdroid.Prelude.{
  ℕ, ◌+◌, ◌-◌, ◌≤◌, ◌<◌, ◌≡◌, ◌≢◌, ◌⊎◌, refl, ap, subst, count-append, Bool, true, false, ◌&&◌,
  List, [], ◌∷◌, ◌++◌, Option, none, some, inl, inr, arith, not, ◌==◌, if◌then◌else◌, All, All-mono,
  Bool-cases, count,
}

-- The buffers cover lo to hi without a gap, each with room for its header.
abbrev pub Tiles : ℕ → ℕ → List Buffer → Type 0
Tiles lo hi [] = lo ≡ hi
Tiles lo hi (b ∷ bs) =
    (b.addr ≡ lo) × (lo + sizeof_buffer ≤ next_addr hi bs) × Tiles (next_addr hi bs) hi bs

-- No two neighbours are free; the flag is that of the buffer before these.
abbrev pub Coalesced : Bool → List Buffer → Type 0
Coalesced before [] = Unit {0}
Coalesced before (b ∷ bs) = ((before && b.free) ≡ false) × Coalesced b.free bs

abbrev pub last_free : Bool → List Buffer → Bool
last_free before [] = before
last_free before (b ∷ bs) = last_free b.free bs

abbrev pub last_or : Option Buffer → List Buffer → Option Buffer
last_or before [] = before
last_or before (b ∷ bs) = last_or (some b) bs

-- The addresses of the buffers with that flag, in order.
abbrev pub addrs : Bool → List Buffer → List ℕ
addrs free [] = []
addrs true (b ∷ bs) = if b.free then b.addr ∷ addrs true bs else addrs true bs
addrs false (b ∷ bs) = if b.free then addrs false bs else b.addr ∷ addrs false bs

-- The buffers that hold a transaction's data, in order.
abbrev pub in_use : List Buffer → List Buffer
in_use [] = []
in_use (b ∷ bs) = if b.free then in_use bs else b ∷ in_use bs

abbrev pub Absent : ℕ → List Buffer → Type 0
Absent a = All (λ b. b.addr ≢ a)

module _ (hi : ℕ) where
  pub next_addr-append :
      (xs : List Buffer) (ys : List Buffer)
      → next_addr hi (xs ++ ys) ≡ next_addr (next_addr hi ys) xs
  next_addr-append [] ys = refl
  next_addr-append (x ∷ xs) ys = refl

  pub Tiles-append :
      (lo : ℕ) (xs ys : List Buffer)
      → Tiles lo (next_addr hi ys) xs
      → Tiles (next_addr hi ys) hi ys
      → Tiles lo hi (xs ++ ys)
  Tiles-append lo [] ys h k = rw h k
  Tiles-append lo (x ∷ xs) ys h k =
      rw (next_addr-append xs ys)
        (h.0, h.1, Tiles-append (next_addr (next_addr hi ys) xs) xs ys h.2 k)

  pub Tiles-append_left :
      (lo : ℕ) (xs ys : List Buffer) → Tiles lo hi (xs ++ ys) → Tiles lo (next_addr hi ys) xs
  Tiles-append_left lo [] [] h = h
  Tiles-append_left lo [] (y ∷ ys) h = omega arith
  Tiles-append_left lo (x ∷ xs) ys h =
      let h' = rw (next_addr-append xs ys) at h in
      (h'.0, h'.1, Tiles-append_left (next_addr (next_addr hi ys) xs) xs ys h'.2)

  pub Tiles-append_right :
      (lo : ℕ) (xs ys : List Buffer) → Tiles lo hi (xs ++ ys) → Tiles (next_addr hi ys) hi ys
  Tiles-append_right lo [] [] h = refl
  Tiles-append_right lo [] (y ∷ ys) h = (refl, ground arith, h.2)
  Tiles-append_right lo (x ∷ xs) ys h = Tiles-append_right (next_addr hi (xs ++ ys)) xs ys h.2

  pub Tiles-le : (lo : ℕ) (xs : List Buffer) → Tiles lo hi xs → lo ≤ hi
  Tiles-le lo [] h = omega arith
  Tiles-le lo (x ∷ xs) h = omega (arith, Tiles-le (next_addr hi xs) xs h.2)

  -- Every buffer lies in the range.
  pub Tiles-bounds :
      (lo : ℕ) (xs : List Buffer)
      → Tiles lo hi xs
      → All (λ b. (lo ≤ b.addr) × (b.addr + sizeof_buffer ≤ hi)) xs
  Tiles-bounds lo [] h = tt
  Tiles-bounds lo (x ∷ xs) h =
      let up = Tiles-le (next_addr hi xs) xs h.2 in
      (
        (omega arith, omega arith),
        All-mono (λ b. (next_addr hi xs ≤ b.addr) × (b.addr + sizeof_buffer ≤ hi))
            (λ b. (lo ≤ b.addr) × (b.addr + sizeof_buffer ≤ hi)) xs (λ b k. (omega arith, k.1))
            (Tiles-bounds (next_addr hi xs) xs h.2),
      )

  size_in_append :
      (a : ℕ) (pre ys : List Buffer) → Absent a pre → size_in hi a (pre ++ ys) ≡ size_in hi a ys
  size_in_append a [] ys n = refl
  size_in_append a (x ∷ pre) ys n = ground (arith, size_in_append a pre ys n.1)

  -- Outside what is replaced the sizes stay, if the next buffer begins where it did.
  pub size_in_replace :
      (a : ℕ) (pre xs ys : List Buffer)
      → next_addr hi xs ≡ next_addr hi ys
      → size_in hi a xs ≡ size_in hi a ys
      → size_in hi a (pre ++ xs) ≡ size_in hi a (pre ++ ys)
  size_in_replace a [] xs ys e s = s
  size_in_replace a (b ∷ pre) xs ys e s =
      ground
        (arith, next_addr-append pre xs, next_addr-append pre ys, size_in_replace a pre xs ys e s)

-- The address of an entry splits the list there.
pub get_buffer-split :
    (a : ℕ) (bs : List Buffer) (b : Buffer)
    → get_buffer a bs ≡ some b
    → (pre : List Buffer) × (post : List Buffer) × (bs ≡ pre ++ b ∷ post)
      × Absent a pre
      × (a ≡ b.addr)
get_buffer-split a [] b h = cc
get_buffer-split a (x ∷ xs) b h = elim (Bool-cases (a == x.addr)) [
  | inl same ↦ ([], xs, ground arith, tt, ground arith)
  | inr other ↦
      let (pre, post, e, n, e') = get_buffer-split a xs b (ground arith) in
      (x ∷ pre, post, ap (◌∷◌ x) e, (λ f. ground arith, n), e')
]

pub get_buffer_skip :
    (a : ℕ) (pre ys : List Buffer) → Absent a pre → get_buffer a (pre ++ ys) ≡ get_buffer a ys
get_buffer_skip a [] ys n = refl
get_buffer_skip a (x ∷ pre) ys n = ground (arith, get_buffer_skip a pre ys n.1)

-- The list primitives at an entry behind `pre`.
module _ (b : Buffer) (post : List Buffer) where
  pub get_buffer-middle :
      (pre : List Buffer) → Absent b.addr pre → get_buffer b.addr (pre ++ b ∷ post) ≡ some b
  get_buffer-middle [] n = ground arith
  get_buffer-middle (x ∷ pre) n = ground (arith, get_buffer-middle pre n.1)

  pub set_buffer-middle :
      (f : Buffer → Buffer) (pre : List Buffer)
      → Absent b.addr pre
      → set_buffer b.addr f (pre ++ b ∷ post) ≡ pre ++ f b ∷ post
  set_buffer-middle f [] n = ground arith
  set_buffer-middle f (x ∷ pre) n = ground (arith, set_buffer-middle f pre n.1)

  pub list_add-middle :
      (new : Buffer) (pre : List Buffer)
      → Absent b.addr pre
      → list_add new b.addr (pre ++ b ∷ post) ≡ pre ++ b ∷ new ∷ post
  list_add-middle new [] n = ground arith
  list_add-middle new (x ∷ pre) n = ground (arith, list_add-middle new pre n.1)

  pub list_del-middle :
      (pre : List Buffer) → Absent b.addr pre → list_del b.addr (pre ++ b ∷ post) ≡ pre ++ post
  list_del-middle [] n = ground arith
  list_del-middle (x ∷ pre) n = ground (arith, list_del-middle pre n.1)

  pub next_of-middle :
      (pre : List Buffer) → Absent b.addr pre → next_of b.addr (pre ++ b ∷ post) ≡ first post
  next_of-middle [] n = ground arith
  next_of-middle (x ∷ pre) n = ground (arith, next_of-middle pre n.1)

  pub prev_from-middle :
      (before : Option Buffer) (pre : List Buffer)
      → Absent b.addr pre
      → prev_from before b.addr (pre ++ b ∷ post) ≡ last_or before pre
  prev_from-middle before [] n = ground arith
  prev_from-middle before (x ∷ pre) n = ground (arith, prev_from-middle (some x) pre n.1)

  pub size_in-middle :
      (hi : ℕ) (pre : List Buffer)
      → Absent b.addr pre
      → size_in hi b.addr (pre ++ b ∷ post) ≡ next_addr hi post - (b.addr + sizeof_buffer)
  size_in-middle hi [] n = ground arith
  size_in-middle hi (x ∷ pre) n = ground (arith, size_in-middle hi pre n.1)

  -- In a tiling an entry stands once.
  pub Tiles-Absent :
      (lo hi : ℕ) (pre : List Buffer)
      → Tiles lo hi (pre ++ b ∷ post)
      → Absent b.addr pre × Absent b.addr post
  Tiles-Absent lo hi pre h =
      let left = Tiles-append_left hi lo pre (b ∷ post) h in
      let right = Tiles-append_right hi lo pre (b ∷ post) h in
      (
        All-mono (λ x. (lo ≤ x.addr) × (x.addr + sizeof_buffer ≤ b.addr)) (λ x. x.addr ≢ b.addr) pre
            (λ x k. omega arith) (Tiles-bounds b.addr lo pre left),
        All-mono (λ x. (next_addr hi post ≤ x.addr) × (x.addr + sizeof_buffer ≤ hi))
            (λ x. x.addr ≢ b.addr) post (λ x k. omega arith)
            (Tiles-bounds hi (next_addr hi post) post right.2),
      )

pub Coalesced-append :
    (f : Bool) (xs ys : List Buffer)
    → Coalesced f xs
    → Coalesced (last_free f xs) ys
    → Coalesced f (xs ++ ys)
Coalesced-append f [] ys h k = k
Coalesced-append f (x ∷ xs) ys h k = (h.0, Coalesced-append x.free xs ys h.1 k)

pub Coalesced-append_left :
    (f : Bool) (xs ys : List Buffer) → Coalesced f (xs ++ ys) → Coalesced f xs
Coalesced-append_left f [] ys h = tt
Coalesced-append_left f (x ∷ xs) ys h = (h.0, Coalesced-append_left x.free xs ys h.1)

pub Coalesced-append_right :
    (f : Bool) (xs ys : List Buffer) → Coalesced f (xs ++ ys) → Coalesced (last_free f xs) ys
Coalesced-append_right f [] ys h = h
Coalesced-append_right f (x ∷ xs) ys h = Coalesced-append_right x.free xs ys h.1

pub last_free_end :
    (f : Bool) (init : List Buffer) (x : Buffer) → last_free f (init ++ x ∷ []) ≡ x.free
last_free_end f [] x = refl
last_free_end f (y ∷ init) x = last_free_end y.free init x

-- A used buffer may stand where a free one stood.
pub Coalesced_weaken : (f : Bool) (xs : List Buffer) → Coalesced f xs → Coalesced false xs
Coalesced_weaken f [] h = tt
Coalesced_weaken f (x ∷ xs) h = (refl, h.1)

pub addrs-append : (f : Bool) (xs ys : List Buffer) → addrs f (xs ++ ys) ≡ addrs f xs ++ addrs f ys
addrs-append true [] ys = refl
addrs-append false [] ys = refl
addrs-append true (x ∷ xs) ys = elim (Bool-cases x.free) [
  | inl e ↦ rw e (ap (◌∷◌ x.addr) (addrs-append true xs ys))
  | inr e ↦ rw e (addrs-append true xs ys)
]
addrs-append false (x ∷ xs) ys = elim (Bool-cases x.free) [
  | inl e ↦ rw e (addrs-append false xs ys)
  | inr e ↦ rw e (ap (◌∷◌ x.addr) (addrs-append false xs ys))
]

pub count-addrs-Absent :
    (a : ℕ) (f : Bool) (xs : List Buffer) → Absent a xs → count a (addrs f xs) ≡ 0
count-addrs-Absent a true [] n = refl
count-addrs-Absent a false [] n = refl
count-addrs-Absent a true (x ∷ xs) n = ground (arith, count-addrs-Absent a true xs n.1)
count-addrs-Absent a false (x ∷ xs) n = ground (arith, count-addrs-Absent a false xs n.1)

-- An address of none of these buffers is not among those of the free ones.
pub uncounted :
    (pre post : List Buffer) (a z : ℕ)
    → Absent z pre
    → Absent z post
    → 0 < count a (addrs true pre ++ addrs true post)
    → a ≢ z
uncounted pre post a z m k c e =
    let c' = subst (λ y. 0 < count y (addrs true pre ++ addrs true post)) e c in
    omega (
      arith,
      count-append z (addrs true pre) (addrs true post),
      count-addrs-Absent z true pre m,
      count-addrs-Absent z true post k,
    )

-- An address among those of one kind splits the list.
pub addrs-split :
    (a : ℕ) (f : Bool) (bs : List Buffer)
    → 0 < count a (addrs f bs)
    → (pre : List Buffer) × (b : Buffer) × (post : List Buffer) × (bs ≡ pre ++ b ∷ post)
      × (a ≡ b.addr)
      × (b.free ≡ f)
addrs-split a true [] h = absurd (omega arith)
addrs-split a false [] h = absurd (omega arith)
addrs-split a true (x ∷ xs) h = elim (Bool-cases (x.free && (a == x.addr))) [
  | inl same ↦ ([], x, xs, refl, ground arith, ground arith)
  | inr other ↦
      let (pre, b, post, e, e', f) = addrs-split a true xs (ground arith) in
      (x ∷ pre, b, post, ap (◌∷◌ x) e, e', f)
]
addrs-split a false (x ∷ xs) h = elim (Bool-cases (not x.free && (a == x.addr))) [
  | inl same ↦ ([], x, xs, refl, ground arith, ground arith)
  | inr other ↦
      let (pre, b, post, e, e', f) = addrs-split a false xs (ground arith) in
      (x ∷ pre, b, post, ap (◌∷◌ x) e, e', f)
]

-- The list behind its last entry.
pub last_or-split :
    (pre : List Buffer)
    → ((pre ≡ []) × (last_or none pre ≡ none))
      ⊎ ((init : List Buffer) × (prev : Buffer) × (pre ≡ init ++ prev ∷ [])
          × (last_or none pre ≡ some prev))
last_or-split [] = inl (refl, refl)
last_or-split (x ∷ []) = inr ([], x, refl, refl)
last_or-split (x ∷ y ∷ pre) = elim (last_or-split (y ∷ pre)) [
  | inl (e, _) ↦ absurd (cc)
  | inr (init, prev, e, l) ↦ inr (x ∷ init, prev, ap (◌∷◌ x) e, l)
]

pub in_use-append : (xs ys : List Buffer) → in_use (xs ++ ys) ≡ in_use xs ++ in_use ys
in_use-append [] ys = refl
in_use-append (x ∷ xs) ys = ground (arith, in_use-append xs ys)

pub in_use_end :
    (init : List Buffer) (prev : Buffer)
    → prev.free ≡ true
    → in_use (init ++ prev ∷ []) ≡ in_use init
in_use_end [] prev free = rw free
in_use_end (x ∷ init) prev free = ground (arith, in_use_end init prev free)
