-- ===== src/Liblog/Filters.antt =====
-- The filters of src/lib/liblog/logprint.c. An android_LogPriority is its number; the filters of a
-- format are the list that `filters` points to. Memory allocation does not fail.
pub mod Rules
pub mod Levels
pub mod Dump
mod Tests
use cdroid.Liblog.Strings.{same_string, tolower, span_to, rest_at, char_at_start, strsep_all}
use cdroid.Prelude.{
  ◌++◌, ℕ, ◌-◌, Bool, true, false, ◌&&◌, ◌||◌, List, [], ◌∷◌, ◌==◌, leb, if◌then◌else◌,
}

-- android_LogPriority
abbrev pub log_unknown : ℕ
log_unknown = 0

abbrev pub log_default : ℕ
log_default = 1

abbrev pub log_verbose : ℕ
log_verbose = 2

abbrev pub log_debug : ℕ
log_debug = 3

abbrev pub log_info : ℕ
log_info = 4

abbrev pub log_warn : ℕ
log_warn = 5

abbrev pub log_error : ℕ
log_error = 6

abbrev pub log_fatal : ℕ
log_fatal = 7

abbrev pub log_silent : ℕ
log_silent = 8

pub record FilterInfo : Type 0 where
  pub tag : List ℕ
  pub pri : ℕ

-- AndroidLogPrintFormat
pub data PrintFormat : Type 0 where
  format_off : PrintFormat
  format_brief : PrintFormat
  format_process : PrintFormat
  format_tag : PrintFormat
  format_thread : PrintFormat
  format_raw : PrintFormat
  format_time : PrintFormat
  format_threadtime : PrintFormat
  format_long : PrintFormat

-- struct AndroidLogFormat_t
pub record LogFormat : Type 0 where
  pub global_pri : ℕ
  pub filters : List FilterInfo
  pub format : PrintFormat

unfoldable pub filter_char_to_pri : ℕ → ℕ
filter_char_to_pri char =
    let c = tolower char in
    if leb 48 c && leb c 57
    then (if leb 56 c then log_verbose else c - 48)
    else if c == 118
    then log_verbose
    else if c == 100
    then log_debug
    else if c == 105
    then log_info
    else if c == 119
    then log_warn
    else if c == 101
    then log_error
    else if c == 102
    then log_fatal
    else if c == 115
    then log_silent
    else if c == 42
    then log_default
    else log_unknown

unfoldable pub filter_pri_to_char : ℕ → ℕ
filter_pri_to_char pri =
    if pri == log_verbose
    then 86
    else if pri == log_debug
    then 68
    else if pri == log_info
    then 73
    else if pri == log_warn
    then 87
    else if pri == log_error
    then 69
    else if pri == log_fatal
    then 70
    else if pri == log_silent
    then 83
    else 63

-- The walk of filterPriForTag.
abbrev pub pri_in : ℕ → List ℕ → List FilterInfo → ℕ
pri_in global tag [] = global
pri_in global tag (f ∷ fs) =
    let rest = pri_in global tag fs in
    if same_string tag f.tag then (if f.pri == log_default then global else f.pri) else rest

unfoldable pub filter_pri_for_tag : LogFormat → List ℕ → ℕ
filter_pri_for_tag p_format tag = pri_in p_format.global_pri tag p_format.filters

unfoldable pub android_log_should_print_line : LogFormat → List ℕ → ℕ → Bool
android_log_should_print_line p_format tag pri = leb (filter_pri_for_tag p_format tag) pri

unfoldable pub android_log_format_new : LogFormat
android_log_format_new = record { global_pri = log_verbose; filters = []; format = format_brief }

unfoldable pub android_log_set_print_format : LogFormat → PrintFormat → LogFormat
android_log_set_print_format p_format format = record p_format { format = format }

-- The values that android_log_formatFromString knows.
abbrev format_names : List (List ℕ × PrintFormat)
format_names =
    (98 ∷ 114 ∷ 105 ∷ 101 ∷ 102 ∷ [], format_brief)
    ∷ (112 ∷ 114 ∷ 111 ∷ 99 ∷ 101 ∷ 115 ∷ 115 ∷ [], format_process)
    ∷ (116 ∷ 97 ∷ 103 ∷ [], format_tag)
    ∷ (116 ∷ 104 ∷ 114 ∷ 101 ∷ 97 ∷ 100 ∷ [], format_thread)
    ∷ (114 ∷ 97 ∷ 119 ∷ [], format_raw)
    ∷ (116 ∷ 105 ∷ 109 ∷ 101 ∷ [], format_time)
    ∷ (116 ∷ 104 ∷ 114 ∷ 101 ∷ 97 ∷ 100 ∷ 116 ∷ 105 ∷ 109 ∷ 101 ∷ [], format_threadtime)
    ∷ (108 ∷ 111 ∷ 110 ∷ 103 ∷ [], format_long)
    ∷ []

abbrev find_format : List ℕ → List (List ℕ × PrintFormat) → PrintFormat
find_format s [] = format_off
find_format s ((name, format) ∷ rest) =
    let found = find_format s rest in if same_string s name then format else found

unfoldable pub android_log_format_from_string : List ℕ → PrintFormat
android_log_format_from_string format_string = find_format format_string format_names

-- The priority behind the tag, if there is one.
abbrev pub rule_pri : List ℕ → ℕ
rule_pri [] = log_default
rule_pri (colon ∷ cs) = filter_char_to_pri (char_at_start cs)

abbrev pub put_rule : LogFormat → List ℕ → ℕ → LogFormat
put_rule p_format tag pri =
    if same_string (42 ∷ []) tag
    then record p_format { global_pri = if pri == log_default then log_debug else pri }
    else record p_format {
      filters =
          record { tag = tag; pri = if pri == log_default then log_verbose else pri }
          ∷ p_format.filters;
    }

-- true is the result 0, false is -1.
unfoldable pub android_log_add_filter_rule : LogFormat → List ℕ → Bool × LogFormat
android_log_add_filter_rule p_format expression =
    let tag = span_to 58 expression in
    let pri = rule_pri (rest_at 58 expression) in
    if same_string [] tag
    then (false, p_format)
    else if pri == log_unknown
    then (false, p_format)
    else (true, put_rule p_format tag pri)

-- The bytes of " \t,".
abbrev pub is_separator : ℕ → Bool
is_separator c = (c == 32) || (c == 9) || (c == 44)

-- The loop over what strsep gives; an empty one is passed over.
unfoldable pub add_rules : LogFormat → List (List ℕ) → Bool × LogFormat
add_rules p_format [] = (true, p_format)
add_rules p_format (t ∷ ts) =
    let r = if same_string [] t then (true, p_format) else android_log_add_filter_rule p_format t in
    let rest = add_rules r.1 ts in if r.0 then rest else (false, r.1)

unfoldable pub android_log_add_filter_string : LogFormat → List ℕ → Bool × LogFormat
android_log_add_filter_string p_format filter_string =
    add_rules p_format (strsep_all is_separator filter_string)

-- The lines that dumpFilters prints, without their ends.
abbrev pub dump_lines : ℕ → List FilterInfo → List (List ℕ)
dump_lines global [] = (42 ∷ 58 ∷ filter_pri_to_char global ∷ []) ∷ []
dump_lines global (f ∷ fs) =
    (f.tag
      ++ 58
        ∷ (if f.pri == log_default then filter_pri_to_char global else filter_pri_to_char f.pri)
        ∷ [])
    ∷ dump_lines global fs

unfoldable pub dump_filters : LogFormat → List (List ℕ)
dump_filters p_format = dump_lines p_format.global_pri p_format.filters
