-- ===== src/Liblog/LogLine/Tests.antt =====
-- android_log_formatLogLine of src/lib/liblog/logprint.c at concrete inputs.
use cdroid.Liblog.LogLine.Split.{render}
use cdroid.Liblog.Filters.{filter_pri_to_char, format_process, log_info}
use cdroid.Liblog.LogLine.Room.{written-render, format_log_line-Fits, Fits}
use cdroid.Liblog.LogLine.{
  needed_size, num_lines, in_buffer, join_lines, android_log_format_log_line, full_suffix,
  full_prefix, buffer_size, LineEntry, written,
}
use cdroid.Prelude.{arith, ◌^◌, ◌<◌, true, ◌≡◌, some, refl, ◌∷◌, []}

-- "a\nb" of the tag "T" at priority info, in process 7.
abbrev two_lines : LineEntry
two_lines = record {
  time = [];
  tv_nsec = 0;
  priority = log_info;
  pid = 7;
  tid = 8;
  tag = 84 ∷ [];
  message = 97 ∷ 10 ∷ 98 ∷ [];
}

-- "I(    7) a  (T)\n" and the same with b
process_lines :
    written format_process two_lines
    ≡ some (
        73 ∷ 40 ∷ 32 ∷ 32 ∷ 32 ∷ 32 ∷ 55 ∷ 41 ∷ 32 ∷ 97 ∷ 32 ∷ 32 ∷ 40 ∷ 84 ∷ 41 ∷ 10 ∷ 73 ∷ 40 ∷ 32
        ∷ 32 ∷ 32 ∷ 32 ∷ 55 ∷ 41 ∷ 32 ∷ 98 ∷ 32 ∷ 32 ∷ 40 ∷ 84 ∷ 41 ∷ 10 ∷ [])
unfolding written full_prefix full_suffix join_lines filter_pri_to_char
process_lines = refl

written-render_example :
    written format_process two_lines
    ≡ some (
        render
          (in_buffer (full_prefix format_process two_lines))
          (in_buffer (full_suffix format_process two_lines))
          ((97 ∷ []) ∷ (98 ∷ []) ∷ []))
written-render_example =
    written-render format_process two_lines ((97 ∷ []) ∷ []) (98 ∷ []) refl ((refl, tt), tt)
      (refl, tt) refl refl

small : needed_size format_process two_lines < 2 ^ 32
unfolding full_prefix full_suffix num_lines filter_pri_to_char
small = omega arith

format_log_line-Fits_example :
    Fits 16
      (buffer_size format_process two_lines)
      true
      (android_log_format_log_line format_process 16 true two_lines)
format_log_line-Fits_example = format_log_line-Fits format_process 16 true two_lines refl small
