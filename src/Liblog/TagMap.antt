-- ===== src/Liblog/TagMap.antt =====
-- The lookup in the tag map of src/lib/liblog/event_tag_map.c. The array is a list; a number is its 32
-- bits.
pub mod Search
pub mod Sorting
mod Tests
use cdroid.Prelude.{
  ◌<◌, ◌≡◌, ◌||◌, ℕ, zero, suc, ◌+◌, ◌-◌, ◌/◌, ◌%◌, ◌^◌, Bool, true, false, List, [], ◌∷◌, Option,
  none, some, ◌==◌, leb, ltb, if◌then◌else◌, length, get_elem?,
}

pub record EventTag : Type 0 where
  pub tag_index : ℕ
  pub tag_str : List ℕ

-- cmp, an unsigned difference in an int
abbrev pub difference : ℕ → ℕ → ℕ
difference index tag = (index + (2 ^ 32 - tag)) % 2 ^ 32

abbrev pub is_negative : ℕ → Bool
is_negative cmp = leb (2 ^ 31) cmp

-- The loop on fuel, from `lo` to hi = stop - 1; `none` is a loop that has not ended or a read behind the
-- array.
unfoldable pub search_tag : ℕ → List EventTag → ℕ → ℕ → ℕ → Option (Option (List ℕ))
search_tag zero tags tag lo stop = if leb stop lo then some none else none
search_tag (suc fuel) tags tag lo stop =
    let mid = (lo + (stop - 1)) / 2 in
    if leb stop lo then some none else elim (get_elem? tags mid) [
      | none ↦ none
      | some t ↦
          let cmp = difference t.tag_index tag in
          let right = is_negative cmp in
          let rest =
            search_tag fuel tags tag (if right then mid + 1 else lo)
              (if right then stop else mid) in
          if cmp == 0 then some (some t.tag_str) else rest
    ]

unfoldable pub android_lookup_event_tag : List EventTag → ℕ → Option (Option (List ℕ))
android_lookup_event_tag tags tag = search_tag (length tags) tags tag 0 (length tags)

-- The check behind the sorting, for two neighbours with the same index.
unfoldable pub has_duplicate : List EventTag → Bool
has_duplicate [] = false
has_duplicate (t ∷ []) = false
has_duplicate (t ∷ u ∷ ts) =
    let rest = has_duplicate (u ∷ ts) in if u.tag_index == t.tag_index then true else rest

abbrev pub compare_event_tags : EventTag → EventTag → ℕ
compare_event_tags t u = difference t.tag_index u.tag_index

-- No entry is greater than the next.
abbrev pub Ordered : List EventTag → Type 0
Ordered [] = Unit
Ordered (t ∷ []) = Unit
Ordered (t ∷ u ∷ ts) =
    ((is_negative (compare_event_tags t u) || (compare_event_tags t u == 0)) ≡ true)
    × Ordered (u ∷ ts)

-- The indices for which the comparison is an order.
abbrev pub Small : List EventTag → Type 0
Small ts = (i : ℕ) (t : EventTag) → get_elem? ts i ≡ some t → t.tag_index < 2 ^ 31

-- What qsort with compareEventTags is relied on for: it has the same entries, and orders them where the
-- comparison is an order.
pub record Qsorts (qsort : List EventTag → List EventTag) (ts : List EventTag) : Type 0 where
  pub kept :
      (i : ℕ) (t : EventTag) → get_elem? ts i ≡ some t → (j : ℕ) × (get_elem? (qsort ts) j ≡ some t)
  pub came :
      (j : ℕ) (t : EventTag) → get_elem? (qsort ts) j ≡ some t → (i : ℕ) × (get_elem? ts i ≡ some t)
  pub ordered : Small ts → Ordered (qsort ts)

-- sortTags; true is the result 0, false is -1.
unfoldable pub sort_tags : (List EventTag → List EventTag) → List EventTag → Bool × List EventTag
sort_tags qsort tags =
    let sorted = qsort tags in (if has_duplicate sorted then false else true, sorted)
