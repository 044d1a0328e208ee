-- ===== src/Liblog/LogBuffer/Framing.antt =====
-- Where android_log_processLogBuffer of src/lib/liblog/logprint.c finds the tag and the message.
use cdroid.Liblog.LogBuffer.Bytes.{NoNul, Holds}
use cdroid.Liblog.LogBuffer.{as_priority, Option, LogEntry, LoggerEntry}
use cdroid.Prelude.{List, ℕ, some, ◌++◌, ◌∷◌, [], ◌+◌, length, ◌<◌, ◌≡◌, ◌^◌}

-- The payload of a record: its priority, its tag, and its message with the last byte `c`.
abbrev pub payload : ℕ → List ℕ → List ℕ → ℕ → List ℕ
payload prio tag message c = prio ∷ (tag ++ 0 ∷ (message ++ c ∷ []))

-- The entry of a record whose message starts at `start`.
abbrev pub entry_of : LoggerEntry → ℕ → ℕ → ℕ → LogEntry
entry_of buf prio start message_len = record {
  tv_sec = buf.sec;
  tv_nsec = buf.nsec;
  priority = as_priority prio;
  pid = buf.pid;
  tid = buf.tid;
  tag = 1;
  message_len = message_len;
  message = start;
}

module _ (buf : LoggerEntry) (prio : ℕ) (tag message : List ℕ) (c : ℕ)
    (h : Holds buf.msg 0 (payload prio tag message c)) (t : NoNul tag) (m : NoNul message)
    (l : buf.len ≡ length (payload prio tag message c)) (w : buf.len < 2 ^ 16) where
  abbrev start : ℕ
  start = length tag + 2

  abbrev last : ℕ
  last = length tag + 2 + length message

  abbrev Framed : Option LogEntry × LoggerEntry → Type 0
  Framed r =
      (r.0 ≡ some (entry_of buf prio (length tag + 2) (length message)))
      × Holds r.1.msg 0 (payload prio tag message 0)
