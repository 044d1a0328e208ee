-- ===== src/Liblog/Filters/Tests.antt =====
-- The filters of src/lib/liblog/logprint.c at concrete inputs.
use cdroid.Liblog.Filters.Levels.{add_filter_string-stops, add_filter_string-levels}
use cdroid.Liblog.Filters.Dump.{read_lines-dump_filters, read_lines}
use cdroid.Liblog.Filters.Rules.{star, IsRule, filter_string, Rule, level_of}
use cdroid.Liblog.Filters.{
  log_fatal, log_silent, log_debug, android_log_should_print_line, log_info, log_warn, log_default,
  true, log_error, filter_pri_to_char, LogFormat, android_log_add_filter_string,
  android_log_format_new, filter_char_to_pri, dump_filters,
}
use cdroid.Prelude.{arith, false, ◌≡◌, All, List, some, inl, inr, refl, ◌++◌, ◌∷◌, []}

-- "AT:W *:S,AT:I "
abbrev rules : List Rule
rules =
    record { tag = 65 ∷ 84 ∷ []; level = some log_warn; separator = 32 }
    ∷ record { tag = star; level = some log_silent; separator = 44 }
    ∷ record { tag = 65 ∷ 84 ∷ []; level = some log_info; separator = 32 }
    ∷ []

rules-IsRule : All IsRule rules
rules-IsRule = (
  ((refl, (refl, (refl, tt))), (refl, (refl, tt)), (omega arith, omega arith), refl),
  (
    ((refl, (refl, tt)), (refl, tt), (omega arith, omega arith), refl),
    (((refl, (refl, (refl, tt))), (refl, (refl, tt)), (omega arith, omega arith), refl), tt),
  ),
)

level_of-rules : level_of rules (65 ∷ 84 ∷ []) ≡ log_info
level_of-rules = refl

add_filter_string-levels_example :
    let r = android_log_add_filter_string android_log_format_new (filter_string rules) in
    (r.0 ≡ true) × (android_log_should_print_line r.1 (65 ∷ 84 ∷ []) log_warn ≡ true)
add_filter_string-levels_example =
    add_filter_string-levels rules (65 ∷ 84 ∷ []) log_warn rules-IsRule

-- "AT:W *:S,AT:I B:x *:V"
add_filter_string-stops_example :
    let r =
      android_log_add_filter_string android_log_format_new
        (filter_string rules ++ ((66 ∷ 58 ∷ 120 ∷ []) ++ 32 ∷ 42 ∷ 58 ∷ 86 ∷ [])) in
    (r.0 ≡ false) × (android_log_should_print_line r.1 (66 ∷ []) log_fatal ≡ false)
unfolding filter_char_to_pri
add_filter_string-stops_example =
    add_filter_string-stops rules (66 ∷ 58 ∷ 120 ∷ []) 32 (42 ∷ 58 ∷ 86 ∷ []) (66 ∷ []) log_fatal
      rules-IsRule (inr (66 ∷ [], 120, [], (refl, (refl, tt)), refl, refl))
      (refl, (refl, (refl, tt))) refl

abbrev sample_format : LogFormat
sample_format = record android_log_format_new {
  global_pri = log_error;
  filters =
      record { tag = 65 ∷ []; pri = log_default } ∷ record { tag = 66 ∷ []; pri = log_info } ∷ [];
}

-- "A:E", "B:I", "*:E"
dump_sample :
    dump_filters sample_format
    ≡ (65 ∷ 58 ∷ 69 ∷ []) ∷ (66 ∷ 58 ∷ 73 ∷ []) ∷ (42 ∷ 58 ∷ 69 ∷ []) ∷ []
unfolding dump_filters filter_pri_to_char
dump_sample = refl

read_lines-dump_filters_example :
    let r = read_lines (dump_filters sample_format) in
    (r.0 ≡ true)
    × (android_log_should_print_line r.1 (66 ∷ []) log_debug
        ≡ android_log_should_print_line sample_format (66 ∷ []) log_debug)
unfolding android_log_format_new
read_lines-dump_filters_example = read_lines-dump_filters sample_format (66 ∷ []) log_debug (
  (omega arith, omega arith),
  (
    ((refl, (refl, tt)), refl, inl refl),
    (((refl, (refl, tt)), refl, inr (omega arith, omega arith)), tt),
  ),
)
