-- ===== src/Liblog/Filters/Dump.antt =====
-- The lines of dumpFilters of src/lib/liblog/logprint.c, read again as rules.
use cdroid.Liblog.Filters.Rules.{add_rule_level, star, IsTag, IsPriority}
use cdroid.Liblog.Filters.{
  leb, filter_pri_for_tag, filter_pri_to_char, android_log_should_print_line, pri_in, dump_filters,
  false, android_log_add_filter_rule, android_log_format_new, dump_lines, true, same_string,
  log_default, Bool, FilterInfo, LogFormat,
}
use cdroid.Prelude.{
  Bool-cases, arith, ◌⊎◌, ◌≡◌, All, List, ℕ, inl, inr, refl, ◌++◌, ◌∷◌, [], ◌==◌, if◌then◌else◌, ap,
}

-- Filters as rules make them: a tag that can be read and is no star, and a priority that is printed, or
-- the default one.
abbrev pub IsFilter : FilterInfo → Type 0
IsFilter f =
    IsTag f.tag × (same_string star f.tag ≡ false) × ((f.pri ≡ log_default) ⊎ IsPriority f.pri)

abbrev pub IsPrintable : LogFormat → Type 0
IsPrintable f = IsPriority f.global_pri × All IsFilter f.filters

-- android_log_addFilterRule for each line, the last one first.
abbrev pub read_lines : List (List ℕ) → Bool × LogFormat
read_lines [] = (true, android_log_format_new)
read_lines (line ∷ lines) =
    let r = read_lines lines in let s = android_log_add_filter_rule r.1 line in if r.0 then s else r

-- The filters with their defaults filled in.
abbrev filled : ℕ → List FilterInfo → List FilterInfo
filled global [] = []
filled global (f ∷ fs) =
    record f { pri = if f.pri == log_default then global else f.pri } ∷ filled global fs

read_lines-dump_lines :
    (global : ℕ) (fs : List FilterInfo)
    → IsPriority global
    → All IsFilter fs
    → read_lines (dump_lines global fs)
      ≡ (true, record android_log_format_new { global_pri = global; filters = filled global fs })
unfolding android_log_format_new
read_lines-dump_lines global [] g h =
    add_rule_level android_log_format_new star global (refl, (refl, tt)) g
read_lines-dump_lines global (f ∷ fs) g h =
    rw (read_lines-dump_lines global fs g h.1) (by_pri h.0.2)
  where
    below : LogFormat
    below = record android_log_format_new { global_pri = global; filters = filled global fs }

    by_pri :
        (f.pri ≡ log_default) ⊎ IsPriority f.pri
        → android_log_add_filter_rule below (
            f.tag
            ++ 58
              ∷ (if f.pri == log_default
                  then filter_pri_to_char global
                  else filter_pri_to_char f.pri)
              ∷ [])
          ≡ (
            true,
            record below {
              filters =
                  record f { pri = if f.pri == log_default then global else f.pri }
                  ∷ filled global fs;
            },
          )
    by_pri (inl e) = rw (e, add_rule_level below f.tag global h.0.0 g, h.0.1) refl
    by_pri (inr p) =
        let n : (f.pri == log_default) ≡ false = ground arith in
        rw (n, add_rule_level below f.tag f.pri h.0.0 p, h.0.1) refl

pri_in-filled :
    (global : ℕ) (tag : List ℕ) (fs : List FilterInfo)
    → IsPriority global
    → pri_in global tag (filled global fs) ≡ pri_in global tag fs
pri_in-filled global tag [] g = refl
pri_in-filled global tag (f ∷ fs) g =
    let n : (global == log_default) ≡ false = ground arith in
    rw (pri_in-filled global tag fs g)
      (elim (Bool-cases (f.pri == log_default)) [ inl y ↦ rw (y, n) refl | inr o ↦ rw (o, o) refl ])

-- The lines that dumpFilters prints of a format whose tags are not empty and have no colon, none
-- of them the star, and whose priorities are printed by a letter, or for a filter the default one,
-- are all accepted by android_log_addFilterRule, from the last to the first into a new format,
-- which then lets exactly the same lines pass.
pub read_lines-dump_filters :
    (f : LogFormat) (tag : List ℕ) (pri : ℕ)
    → IsPrintable f
    → let r = read_lines (dump_filters f) in
      (r.0 ≡ true)
      × (android_log_should_print_line r.1 tag pri ≡ android_log_should_print_line f tag pri)
unfolding dump_filters android_log_should_print_line filter_pri_for_tag
read_lines-dump_filters f tag pri h =
    rw (read_lines-dump_lines f.global_pri f.filters h.0 h.1)
      (refl, ap (λ l. leb l pri) (pri_in-filled f.global_pri tag f.filters h.0))
