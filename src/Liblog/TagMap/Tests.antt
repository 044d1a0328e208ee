-- ===== src/Liblog/TagMap/Tests.antt =====
-- The tag map of src/lib/liblog/event_tag_map.c at concrete inputs.
use cdroid.Liblog.TagMap.Sorting.{lookup_sorted-find_tag}
use cdroid.Liblog.TagMap.{
  has_duplicate, ℕ, Qsorts, EventTag, android_lookup_event_tag, sort_tags, Small,
}
use cdroid.Prelude.{
  true, get_elem?, ◌≡◌, arith, List, some, refl, ◌∷◌, [], if◌then◌else◌, ltb, zero, suc,
}

abbrev insert : EventTag → List EventTag → List EventTag
insert t [] = t ∷ []
insert t (u ∷ us) =
    let rest = insert t us in if ltb u.tag_index t.tag_index then u ∷ rest else t ∷ u ∷ us

abbrev insertion_sort : List EventTag → List EventTag
insertion_sort [] = []
insertion_sort (t ∷ ts) = insert t (insertion_sort ts)

abbrev battery : EventTag
battery = record { tag_index = 2722; tag_str = 98 ∷ 97 ∷ 116 ∷ [] }

abbrev answer : EventTag
answer = record { tag_index = 42; tag_str = 97 ∷ 110 ∷ 115 ∷ [] }

abbrev tags : List EventTag
tags = battery ∷ answer ∷ []

tags-Small : Small tags
tags-Small zero t e = ground arith
tags-Small (suc zero) t e = ground arith
tags-Small (suc (suc i)) t e = absurd (ground arith)

tags-Qsorts : Qsorts insertion_sort tags
tags-Qsorts = record { kept = kept; came = came; ordered = λ s. (refl, tt) }
  where
    kept :
        (i : ℕ) (t : EventTag)
        → get_elem? tags i ≡ some t
        → (j : ℕ) × (get_elem? (insertion_sort tags) j ≡ some t)
    kept zero t e = (1, e)
    kept (suc zero) t e = (0, e)
    kept (suc (suc i)) t e = absurd (ground arith)

    came :
        (j : ℕ) (t : EventTag)
        → get_elem? (insertion_sort tags) j ≡ some t
        → (i : ℕ) × (get_elem? tags i ≡ some t)
    came zero t e = (1, e)
    came (suc zero) t e = (0, e)
    came (suc (suc i)) t e = absurd (ground arith)

sorted_tags : sort_tags insertion_sort tags ≡ (true, answer ∷ battery ∷ [])
unfolding sort_tags has_duplicate
sorted_tags = refl

lookup_sorted-find_tag_example :
    android_lookup_event_tag (answer ∷ battery ∷ []) 2722 ≡ some (some (98 ∷ 97 ∷ 116 ∷ []))
lookup_sorted-find_tag_example =
    lookup_sorted-find_tag insertion_sort tags (answer ∷ battery ∷ []) 2722 tags-Qsorts tags-Small
      (omega arith) sorted_tags
