-- ===== src/Liblog/TagMap/Sorting.antt =====
-- The lookup of src/lib/liblog/event_tag_map.c behind its sorting.
use cdroid.Liblog.TagMap.Search.{
  Sorted-Ascending, find_tag_at, lookup_event_tag-find_tag, find_tag_absent, Sorted, find_tag,
}
use cdroid.Liblog.TagMap.{
  Qsorts, Ordered, Small, sort_tags, android_lookup_event_tag, EventTag, has_duplicate,
}
use cdroid.Prelude.{
  true, false, sym, Option-cases, subst, ap, ==_iff, Bool-cases, arith, List, ℕ, ◌==◌, none, some,
  refl, inl, inr, zero, suc, ◌≡◌, ◌≢◌, ◌<◌, ◌^◌, ◌∷◌, [], get_elem?, ◌∙◌,
}

Ordered-Sorted : (ts : List EventTag) → Small ts → Ordered ts → Sorted ts
Ordered-Sorted [] s o = tt
Ordered-Sorted (t ∷ []) s o = s 0 t refl
Ordered-Sorted (t ∷ u ∷ ts) s o = (
  ground (arith, s 0 t refl, s 1 u refl, o.0),
  Ordered-Sorted (u ∷ ts) (λ i a e. s (suc i) a e) o.1,
)

find_tag-some :
    (tag : ℕ) (ts : List EventTag) (s : List ℕ)
    → find_tag tag ts ≡ some s
    → (i : ℕ) × (a : EventTag) × (get_elem? ts i ≡ some a) × (a.tag_index ≡ tag) × (a.tag_str ≡ s)
find_tag-some tag [] s h = absurd (ground arith)
find_tag-some tag (t ∷ ts) s h = elim (Bool-cases (t.tag_index == tag)) [
  | inl y ↦ (0, t, refl, (==_iff t.tag_index tag).0 y, ground arith)
  | inr n ↦ let (i, a, e, f, g) = find_tag-some tag ts s (rw n at h) in (suc i, a, e, f, g)
]

find_tag-none :
    (tag : ℕ) (ts : List EventTag) (i : ℕ) (a : EventTag)
    → find_tag tag ts ≡ none
    → get_elem? ts i ≡ some a
    → a.tag_index ≢ tag
find_tag-none tag [] i a h e = absurd (ground arith)
find_tag-none tag (t ∷ ts) zero a h e = λ f. ground arith
find_tag-none tag (t ∷ ts) (suc i) a h e = find_tag-none tag ts i a (ground arith) e

module _ (qsort : List EventTag → List EventTag) (tags : List EventTag) (tag : ℕ)
    (q : Qsorts qsort tags) (small : Small tags) (low : tag < 2 ^ 31)
    (unique : has_duplicate (qsort tags) ≡ false) where
  in_order : Sorted (qsort tags)
  in_order =
      Ordered-Sorted (qsort tags) (λ j t e. let (i, e') = q.came j t e in small i t e')
        (q.ordered small)

  same_walk : find_tag tag (qsort tags) ≡ find_tag tag tags
  same_walk = elim (Option-cases (find_tag tag tags)) [
    | inl n ↦
        find_tag_absent tag (qsort tags)
          (λ j t e. let (i, e') = q.came j t e in find_tag-none tag tags i t n e')
        ∙ sym n
    | inr (s, y) ↦
        let (i, a, e, f, g) = find_tag-some tag tags s y in
        let (j, e') = q.kept i a e in
        find_tag_at tag (qsort tags) j a (Sorted-Ascending (qsort tags) in_order unique) e' f
        ∙ ap some g
        ∙ sym y
  ]

-- android_lookupEventTag, in an array that sortTags has sorted and accepted, where all indices and
-- the tag are below 2^31 and qsort keeps the entries and orders them by compareEventTags, ends,
-- reads nothing behind the array, and gives what a walk over the array as it was before the
-- sorting finds: the string of the entry with the tag, or a null pointer if there is none.
pub lookup_sorted-find_tag :
    (qsort : List EventTag → List EventTag) (tags sorted : List EventTag) (tag : ℕ)
    → Qsorts qsort tags
    → Small tags
    → tag < 2 ^ 31
    → sort_tags qsort tags ≡ (true, sorted)
    → android_lookup_event_tag sorted tag ≡ some (find_tag tag tags)
unfolding sort_tags
lookup_sorted-find_tag qsort tags sorted tag q small low h =
    let is : qsort tags ≡ sorted = ap (λ r. r.1) h in
    let unique : has_duplicate (qsort tags) ≡ false = ground arith in
    subst (λ s. android_lookup_event_tag s tag ≡ some (find_tag tag tags)) is
      (lookup_event_tag-find_tag (qsort tags) tag (in_order qsort tags tag q small low unique)
          unique low
        ∙ ap some (same_walk qsort tags tag q small low unique))
