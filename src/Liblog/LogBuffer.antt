-- ===== src/Liblog/LogBuffer.antt =====
-- android_log_processLogBuffer of src/lib/liblog/logprint.c. The payload is a function from offsets into
-- `msg`; pointers into it are offsets, and a char is a number below 256.
pub mod Bytes
pub mod Framing
pub mod Limits
mod Tests
use cdroid.Prelude.{
  ℕ, zero, suc, ◌+◌, ◌-◌, ◌%◌, ◌^◌, Bool, true, false, ◌&&◌, Option, none, some, ◌==◌, ltb,
  if◌then◌else◌,
}

-- struct logger_entry; `len` is a uint16_t.
pub record LoggerEntry : Type 0 where
  pub len : ℕ
  pub pid : ℕ
  pub tid : ℕ
  pub sec : ℕ
  pub nsec : ℕ
  pub msg : ℕ → ℕ

-- AndroidLogEntry
pub record LogEntry : Type 0 where
  pub tv_sec : ℕ
  pub tv_nsec : ℕ
  pub priority : ℕ
  pub pid : ℕ
  pub tid : ℕ
  pub tag : ℕ
  pub message_len : ℕ
  pub message : ℕ

abbrev is_start : Option ℕ → Bool
is_start none = false
is_start (some s) = true

-- msgStart behind the byte at `i`.
abbrev pub next_start : Option ℕ → Bool → ℕ → Option ℕ
next_start none nul i = if nul then some (i + 1) else none
next_start (some s) nul i = some s

-- The loop from `i` on with n rounds to go: msgStart and msgEnd, `none` for -1.
unfoldable pub scan : (ℕ → ℕ) → ℕ → ℕ → Option ℕ → Option ℕ × Option ℕ
scan msg zero i start = (start, none)
scan msg (suc n) i start =
    let nul = msg i == 0 in
    let rest = scan msg n (i + 1) (next_start start nul i) in
    if nul && is_start start then (start, some i) else rest

-- A char, which is signed, in the 32 bits of an android_LogPriority.
abbrev pub as_priority : ℕ → ℕ
as_priority c = if ltb c 128 then c else 2 ^ 32 - 256 + c

-- What the entry is filled with; an int difference in a size_t of 32 bits.
abbrev pub fill_entry : LoggerEntry → ℕ → ℕ → LogEntry
fill_entry buf start stop = record {
  tv_sec = buf.sec;
  tv_nsec = buf.nsec;
  priority = as_priority (buf.msg 0);
  pid = buf.pid;
  tid = buf.tid;
  tag = 1;
  message_len = (stop + (2 ^ 32 - start)) % 2 ^ 32;
  message = start;
}

-- With the two places that the loop found.
abbrev pub with_ends : LoggerEntry → Option ℕ × Option ℕ → Option LogEntry × LoggerEntry
with_ends buf (none, stop) = (none, buf)
with_ends buf (some start, some stop) = (some (fill_entry buf start stop), buf)
with_ends buf (some start, none) =
    let forced = record buf { msg = λ i. if i == buf.len - 1 then 0 else buf.msg i } in
    (some (fill_entry forced start (buf.len - 1)), forced)

-- `none` is the result -1; the buffer is as the routine leaves it.
unfoldable pub android_log_process_log_buffer : LoggerEntry → Option LogEntry × LoggerEntry
android_log_process_log_buffer buf =
    if ltb buf.len 3 then (none, buf) else with_ends buf (scan buf.msg (buf.len - 1) 1 none)
