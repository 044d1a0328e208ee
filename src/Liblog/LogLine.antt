-- ===== src/Liblog/LogLine.antt =====
-- android_log_formatLogLine of src/lib/liblog/logprint.c. The message is the list of its messageLen bytes;
-- the time is what strftime wrote into timeBuf; it and the tag are C strings. size_t has 32 bits. Numbers of processes and threads are not negative.
pub mod Decimal
pub mod Split
pub mod Room
mod Tests
use cdroid.Liblog.LogLine.Decimal.{decimal, pad_left, pad_zero, pad_right}
use cdroid.Liblog.Strings.{rest_at, span_to}
use cdroid.Liblog.Filters.{
  filter_pri_to_char, PrintFormat, format_off, format_brief, format_process, format_tag,
  format_thread, format_raw, format_time, format_threadtime, format_long,
}
use cdroid.Prelude.{
  ◌/◌, leb, List, ◌*◌, ℕ, zero, suc, ◌+◌, ◌-◌, ◌%◌, ◌^◌, Bool, true, false, ◌&&◌, ◌||◌, Option,
  none, some, ◌==◌, ltb, if◌then◌else◌, take, length, ◌∷◌, [], ◌++◌,
}

-- What the routine reads of an AndroidLogEntry.
pub record LineEntry : Type 0 where
  pub time : List ℕ
  pub tv_nsec : ℕ
  pub priority : ℕ
  pub pid : ℕ
  pub tid : ℕ
  pub tag : List ℕ
  pub message : List ℕ

-- "%s.%03ld" of the time
abbrev stamp : LineEntry → List ℕ
stamp entry = entry.time ++ 46 ∷ pad_zero 3 (decimal (entry.tv_nsec / 1000000))

-- What snprintf writes into prefixBuf, given enough room.
unfoldable pub full_prefix : PrintFormat → LineEntry → List ℕ
full_prefix format_tag entry =
    filter_pri_to_char entry.priority ∷ 47 ∷ (pad_right 8 entry.tag ++ 58 ∷ 32 ∷ [])
full_prefix format_process entry =
    filter_pri_to_char entry.priority ∷ 40 ∷ (pad_left 5 (decimal entry.pid) ++ 41 ∷ 32 ∷ [])
full_prefix format_thread entry =
    filter_pri_to_char entry.priority
    ∷ 40
    ∷ (pad_left 5 (decimal entry.pid) ++ 58 ∷ (pad_left 5 (decimal entry.tid) ++ 41 ∷ 32 ∷ []))
full_prefix format_raw entry = []
full_prefix format_time entry =
    stamp entry
    ++ 32
      ∷ filter_pri_to_char entry.priority
      ∷ 47
      ∷ (pad_right 8 entry.tag ++ 40 ∷ (pad_left 5 (decimal entry.pid) ++ 41 ∷ 58 ∷ 32 ∷ []))
full_prefix format_threadtime entry =
    stamp entry
    ++ 32
      ∷ (pad_left 5 (decimal entry.pid)
          ++ 32
            ∷ (pad_left 5 (decimal entry.tid)
                ++ 32
                  ∷ filter_pri_to_char entry.priority
                  ∷ 32
                  ∷ (pad_right 8 entry.tag ++ 58 ∷ 32 ∷ [])))
full_prefix format_long entry =
    91
    ∷ 32
    ∷ (stamp entry
        ++ 32
          ∷ (pad_left 5 (decimal entry.pid)
              ++ 58
                ∷ (pad_left 5 (decimal entry.tid)
                    ++ 32
                      ∷ filter_pri_to_char entry.priority
                      ∷ 47
                      ∷ (pad_right 8 entry.tag ++ 32 ∷ 93 ∷ 10 ∷ []))))
full_prefix _ entry =
    filter_pri_to_char entry.priority
    ∷ 47
    ∷ (pad_right 8 entry.tag ++ 40 ∷ (pad_left 5 (decimal entry.pid) ++ 41 ∷ 58 ∷ 32 ∷ []))

-- The same for suffixBuf.
unfoldable pub full_suffix : PrintFormat → LineEntry → List ℕ
full_suffix format_process entry = 32 ∷ 32 ∷ 40 ∷ (entry.tag ++ 41 ∷ 10 ∷ [])
full_suffix format_long entry = 10 ∷ 10 ∷ []
full_suffix _ entry = 10 ∷ []

-- prefixSuffixIsHeaderFooter
abbrev pub is_header_footer : PrintFormat → Bool
is_header_footer format_long = true
is_header_footer _ = false

-- What a buffer of 128 bytes keeps, and the length that is worked with.
abbrev pub in_buffer : List ℕ → List ℕ
in_buffer s = take 127 s

abbrev pub buffer_len : List ℕ → ℕ
buffer_len s = if leb 128 (length s) then 127 else length s

abbrev pub count_newlines : List ℕ → ℕ
count_newlines [] = 0
count_newlines (c ∷ cs) = (if c == 10 then 1 else 0) + count_newlines cs

-- The byte at pm - 1 behind the loop, `d` before it.
abbrev pub last_byte : ℕ → List ℕ → ℕ
last_byte d [] = d
last_byte d (c ∷ cs) = last_byte c cs

unfoldable pub num_lines : Bool → List ℕ → ℕ
num_lines true message = 1
num_lines false message = count_newlines message + (if last_byte 10 message == 10 then 0 else 1)

-- if (*pm == '\n') pm++
abbrev pub skip_newline : List ℕ → List ℕ
skip_newline [] = []
skip_newline (c ∷ cs) = if c == 10 then cs else c ∷ cs

abbrev pub has_nul : List ℕ → Bool
has_nul [] = false
has_nul (c ∷ cs) = (c == 0) || has_nul cs

abbrev put_line : List ℕ → Option (List ℕ) → Option (List ℕ)
put_line line none = none
put_line line (some rest) = some (line ++ rest)

-- strcat of the prefix, strncat of the bytes, strcat of the suffix. strncat stops at a NUL, but p goes on
-- by the number of bytes: then the next strcat starts behind the end of the text, at bytes that were
-- never set, which is `none`.
abbrev pub framed : List ℕ → List ℕ → List ℕ → Option (List ℕ)
framed prefix suffix line = if has_nul line then none else some (prefix ++ (line ++ suffix))

abbrev join : Option (List ℕ) → Option (List ℕ) → Option (List ℕ)
join none rest = none
join (some line) rest = put_line line rest

-- The loop over the lines, on fuel; `none` is a loop that has not ended, or bytes that were never set.
unfoldable pub join_lines : ℕ → List ℕ → List ℕ → List ℕ → Option (List ℕ)
join_lines fuel prefix suffix [] = some []
join_lines zero prefix suffix (c ∷ cs) = none
join_lines (suc fuel) prefix suffix (c ∷ cs) =
    join (framed prefix suffix (span_to 10 (c ∷ cs)))
      (join_lines fuel prefix suffix (skip_newline (rest_at 10 (c ∷ cs))))

-- The bytes that are written; each line takes a round and at least one byte of the message.
unfoldable pub written : PrintFormat → LineEntry → Option (List ℕ)
written format entry =
    let prefix = in_buffer (full_prefix format entry) in
    let suffix = in_buffer (full_suffix format entry) in
    if is_header_footer format
    then framed prefix suffix entry.message
    else join_lines (length entry.message) prefix suffix entry.message

-- The size that the text needs, and bufferSize, the same in a size_t.
abbrev pub needed_size : PrintFormat → LineEntry → ℕ
needed_size format entry =
    num_lines (is_header_footer format) entry.message
      * (buffer_len (full_prefix format entry) + buffer_len (full_suffix format entry))
    + length entry.message
    + 1

unfoldable pub buffer_size : PrintFormat → LineEntry → ℕ
buffer_size format entry = needed_size format entry % 2 ^ 32

-- Where the line is written: defaultBuffer, or one that malloc gives or not.
pub data Place : Type 0 where
  default_buffer : Place
  new_buffer : Place

unfoldable pub place : ℕ → ℕ → Bool → Option Place
place default_size size malloc_gives =
    if leb size default_size
    then some default_buffer
    else if malloc_gives
    then some new_buffer
    else none

-- The bytes before the final NUL with their place; `none` is a null result.
unfoldable pub android_log_format_log_line :
    PrintFormat → ℕ → Bool → LineEntry → Option (Place × Option (List ℕ))
android_log_format_log_line format default_size malloc_gives entry =
    elim (place default_size (buffer_size format entry) malloc_gives) [
      | none ↦ none
      | some p ↦ some (p, written format entry)
    ]
