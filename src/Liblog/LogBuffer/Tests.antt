-- ===== src/Liblog/LogBuffer/Tests.antt =====
-- Records of src/lib/liblog/logprint.c at concrete inputs.
use cdroid.Liblog.LogBuffer.Framing.{entry_of}
use cdroid.Liblog.LogBuffer.Limits.{process_unended, process-EndsIn, EndsIn}
use cdroid.Liblog.LogBuffer.{scan, LoggerEntry, android_log_process_log_buffer}
use cdroid.Prelude.{◌-◌, ◌^◌, length, arith, ℕ, ◌≡◌, List, some, refl, ◌∷◌, [], get_or}

abbrev at_bytes : List ℕ → ℕ → ℕ
at_bytes bytes i = get_or bytes i 0

abbrev logged : List ℕ → LoggerEntry
logged bytes = record {
  len = length bytes;
  pid = 10;
  tid = 11;
  sec = 100;
  nsec = 200;
  msg = at_bytes bytes;
}

-- Priority 4, tag "A", message "hi" cut short at "h".
abbrev cut : LoggerEntry
cut = logged (4 ∷ 65 ∷ 0 ∷ 104 ∷ 105 ∷ [])

cut_message : (android_log_process_log_buffer cut).0 ≡ some (entry_of cut 4 3 1)
unfolding android_log_process_log_buffer scan
cut_message = refl

-- Only the NUL of the tag.
abbrev unended : LoggerEntry
unended = logged (4 ∷ 65 ∷ 0 ∷ [])

process-EndsIn_example : EndsIn 5 (android_log_process_log_buffer cut)
process-EndsIn_example = process-EndsIn cut (omega arith)

process_unended_example :
    (android_log_process_log_buffer unended).0 ≡ some (entry_of unended 4 3 (2 ^ 32 - 1))
process_unended_example =
    process_unended unended 4 (65 ∷ []) (refl, (refl, (refl, tt))) (refl, tt) (omega arith) refl
      (omega arith)
