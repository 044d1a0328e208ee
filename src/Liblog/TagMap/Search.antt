-- ===== src/Liblog/TagMap/Search.antt =====
-- The binary search of src/lib/liblog/event_tag_map.c finds what a walk finds.
use cdroid.Liblog.TagMap.{
  android_lookup_event_tag, is_negative, difference, search_tag, true, false, Option, EventTag,
  has_duplicate,
}
use cdroid.Prelude.{
  subst, leb, ap, ltb, ==_iff, Bool-cases, arith, List, ℕ, ◌==◌, if◌then◌else◌, none, some, refl,
  inl, inr, zero, suc, ◌≡◌, ◌≢◌, ◌<◌, ◌≤◌, ◌+◌, ◌-◌, ◌/◌, ◌^◌, ◌∷◌, [], length, get_elem?, ◌∙◌,
}

-- The walk.
abbrev pub find_tag : ℕ → List EventTag → Option (List ℕ)
find_tag tag [] = none
find_tag tag (t ∷ ts) =
    let rest = find_tag tag ts in if t.tag_index == tag then some t.tag_str else rest

-- Each index below the next.
abbrev pub Ascending : List EventTag → Type 0
Ascending [] = Unit
Ascending (t ∷ []) = t.tag_index < 2 ^ 31
Ascending (t ∷ u ∷ ts) = (t.tag_index < u.tag_index) × Ascending (u ∷ ts)

-- The neighbours of a sorted array without duplicates.
abbrev pub Sorted : List EventTag → Type 0
Sorted [] = Unit
Sorted (t ∷ []) = t.tag_index < 2 ^ 31
Sorted (t ∷ u ∷ ts) = (t.tag_index ≤ u.tag_index) × Sorted (u ∷ ts)

pub Sorted-Ascending : (ts : List EventTag) → Sorted ts → has_duplicate ts ≡ false → Ascending ts
unfolding has_duplicate
Sorted-Ascending [] s d = tt
Sorted-Ascending (t ∷ []) s d = s
Sorted-Ascending (t ∷ u ∷ ts) s d =
    (ground (arith, s), Sorted-Ascending (u ∷ ts) s.1 (ground arith))

module _ where
  below_later :
      (t : EventTag) (ts : List EventTag) (j : ℕ) (b : EventTag)
      → Ascending (t ∷ ts)
      → get_elem? ts j ≡ some b
      → t.tag_index < b.tag_index
  below_later t [] j b h e = absurd (ground arith)
  below_later t (u ∷ ts) zero b h e = ground (arith, h)
  below_later t (u ∷ ts) (suc j) b h e = omega (arith, h.0, below_later u ts j b h.1 e)

  tail : (t : EventTag) (ts : List EventTag) → Ascending (t ∷ ts) → Ascending ts
  tail t [] h = tt
  tail t (u ∷ ts) h = h.1

ascending :
    (ts : List EventTag) (i j : ℕ) (a b : EventTag)
    → Ascending ts
    → i < j
    → get_elem? ts i ≡ some a
    → get_elem? ts j ≡ some b
    → a.tag_index < b.tag_index
ascending [] i j a b h l e f = absurd (ground arith)
ascending (t ∷ ts) i zero a b h l e f = absurd (omega arith)
ascending (t ∷ ts) zero (suc j) a b h l e f = ground (arith, below_later t ts j b h f)
ascending (t ∷ ts) (suc i) (suc j) a b h l e f =
    ascending ts i j a b (tail t ts h) (omega arith) e f

bounded :
    (ts : List EventTag) (i : ℕ) (a : EventTag)
    → Ascending ts
    → get_elem? ts i ≡ some a
    → a.tag_index < 2 ^ 31
bounded [] i a h e = absurd (ground arith)
bounded (t ∷ []) zero a h e = ground (arith, h)
bounded (t ∷ []) (suc i) a h e = absurd (ground arith)
bounded (t ∷ u ∷ ts) zero a h e = ground (arith, h.0, bounded (u ∷ ts) zero u h.1 refl)
bounded (t ∷ u ∷ ts) (suc i) a h e = bounded (u ∷ ts) i a h.1 e

there : (ts : List EventTag) (i : ℕ) → i < length ts → (a : EventTag) × (get_elem? ts i ≡ some a)
there [] i h = absurd (omega arith)
there (t ∷ ts) zero h = (t, refl)
there (t ∷ ts) (suc i) h = there ts i (omega arith)

pub find_tag_absent :
    (tag : ℕ) (ts : List EventTag)
    → ((i : ℕ) (a : EventTag) → get_elem? ts i ≡ some a → a.tag_index ≢ tag)
    → find_tag tag ts ≡ none
find_tag_absent tag [] h = refl
find_tag_absent tag (t ∷ ts) h =
    let n : (t.tag_index == tag) ≡ false = ground (arith, h zero t refl) in
    rw n (find_tag_absent tag ts (λ i a e. h (suc i) a e))

pub find_tag_at :
    (tag : ℕ) (ts : List EventTag) (i : ℕ) (a : EventTag)
    → Ascending ts
    → get_elem? ts i ≡ some a
    → a.tag_index ≡ tag
    → find_tag tag ts ≡ some a.tag_str
find_tag_at tag [] i a h e f = absurd (ground arith)
find_tag_at tag (t ∷ ts) zero a h e f =
    let same : t ≡ a = cc in
    let y : (t.tag_index == tag) ≡ true =
      (==_iff t.tag_index tag).1 (ap (λ (x : EventTag). x.tag_index) same ∙ f) in
    rw y (ap (λ (x : EventTag). some x.tag_str) same)
find_tag_at tag (t ∷ ts) (suc i) a h e f =
    let n : (t.tag_index == tag) ≡ false = ground (arith, below_later t ts i a h e) in
    rw n (find_tag_at tag ts i a (tail t ts h) e f)

module _ (tags : List EventTag) (tag : ℕ) (h : Ascending tags) (small : tag < 2 ^ 31) where
  -- What lies outside the window.
  abbrev Outside : ℕ → ℕ → Type 0
  Outside lo stop =
      ((i : ℕ) (a : EventTag) → i < lo → get_elem? tags i ≡ some a → a.tag_index < tag)
      × ((i : ℕ) (a : EventTag) → stop ≤ i → get_elem? tags i ≡ some a → tag < a.tag_index)

  empty : (lo stop : ℕ) → stop ≤ lo → Outside lo stop → find_tag tag tags ≡ none
  empty lo stop l o = find_tag_absent tag tags (λ i a e. elim (Bool-cases (ltb i lo)) [
    | inl y ↦ λ f. omega (arith, f, o.0 i a (ground arith) e)
    | inr n ↦ λ f. omega (arith, f, o.1 i a (ground (arith, l)) e)
  ])

  searched :
      (fuel lo stop : ℕ)
      → stop ≤ lo + fuel
      → stop ≤ length tags
      → Outside lo stop
      → search_tag fuel tags tag lo stop ≡ some (find_tag tag tags)
  unfolding search_tag
  searched zero lo stop l n o =
      let y : leb stop lo ≡ true = ground (arith, l) in rw (y, empty lo stop (omega arith) o) refl
  searched (suc fuel) lo stop l n o = elim (Bool-cases (leb stop lo)) [
    | inl y ↦ rw (y, empty lo stop (ground arith) o) refl
    | inr more ↦
        let mid = (lo + (stop - 1)) / 2 in
        let (a, e) = there tags mid (ground (arith, n)) in
        let b = bounded tags mid a h e in
        rw (more, e) (by_difference mid a e b (ground arith) (ground arith) (searched fuel))
  ]
    where
      by_difference :
          (mid : ℕ) (a : EventTag)
          → get_elem? tags mid ≡ some a
          → a.tag_index < 2 ^ 31
          → lo ≤ mid
          → mid < stop
          → ((lo stop : ℕ)
              → stop ≤ lo + fuel
              → stop ≤ length tags
              → Outside lo stop
              → search_tag fuel tags tag lo stop ≡ some (find_tag tag tags))
          → (if difference a.tag_index tag == 0
              then some (some a.tag_str)
              else search_tag fuel tags tag
                  (if is_negative (difference a.tag_index tag) then mid + 1 else lo)
                  (if is_negative (difference a.tag_index tag) then stop else mid))
            ≡ some (find_tag tag tags)
      by_difference mid a e b x y ih = elim (Bool-cases (difference a.tag_index tag == 0)) [
        | inl z ↦
            let same : a.tag_index ≡ tag = ground (arith, b, small) in
            rw (z, find_tag_at tag tags mid a h e same) refl
        | inr w ↦ elim (Bool-cases (is_negative (difference a.tag_index tag))) [
          | inl y' ↦
              let less : a.tag_index < tag = ground (arith, b, small) in
              rw (w, y')
                (ih (mid + 1) stop (omega (arith, l, x)) n (
                  λ i c k f. elim (Bool-cases (i == mid)) [
                    | inl q ↦ same_entry i c q f (λ j. j < tag) less
                    | inr q ↦ omega (arith, less, ascending tags i mid c a h (ground arith) f e)
                  ],
                  o.1,
                ))
          | inr n' ↦
              let more : tag < a.tag_index = ground (arith, b, small) in
              rw (w, n')
                (ih lo mid (omega (arith, l, y)) (omega (arith, n, y)) (
                  o.0,
                  λ i c k f. elim (Bool-cases (i == mid)) [
                    | inl q ↦ same_entry i c q f (λ j. tag < j) more
                    | inr q ↦ omega (arith, more, ascending tags mid i a c h (ground arith) e f)
                  ],
                ))
        ]
      ]
        where
          same_entry :
              (i : ℕ) (c : EventTag)
              → (i == mid) ≡ true
              → get_elem? tags i ≡ some c
              → (P : ℕ → Type 0) → P a.tag_index
              → P c.tag_index
          same_entry i c q f P r =
              let at : i ≡ mid = (==_iff i mid).0 q in
              let f' : get_elem? tags mid ≡ some c = subst (λ j. get_elem? tags j ≡ some c) at f in
              let eq : a ≡ c = cc in subst (λ (x : EventTag). P x.tag_index) eq r

pub lookup_event_tag-find_tag :
    (tags : List EventTag) (tag : ℕ)
    → Sorted tags
    → has_duplicate tags ≡ false
    → tag < 2 ^ 31
    → android_lookup_event_tag tags tag ≡ some (find_tag tag tags)
unfolding android_lookup_event_tag
lookup_event_tag-find_tag tags tag s d small =
    searched tags tag (Sorted-Ascending tags s d) small (length tags) 0 (length tags) (omega arith)
      (omega arith) (λ i a l e. absurd (omega arith), λ i a l e. absurd (beyond tags i a l e))
  where
    beyond :
        (ts : List EventTag) (i : ℕ) (a : EventTag) → length ts ≤ i → get_elem? ts i ≡ some a → ⊥
    beyond [] i a l e = ground arith
    beyond (t ∷ ts) zero a l e = omega arith
    beyond (t ∷ ts) (suc i) a l e = beyond ts i a (omega arith) e
