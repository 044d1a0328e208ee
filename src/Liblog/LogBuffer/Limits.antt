-- ===== src/Liblog/LogBuffer/Limits.antt =====
-- How far the message of android_log_processLogBuffer of src/lib/liblog/logprint.c goes.
use cdroid.Liblog.LogBuffer.Framing.{entry_of}
use cdroid.Liblog.LogBuffer.Bytes.{
  first_nul-Holds, NoNul, scan_fresh, Holds, ends_behind, first_nul-some, first_nul,
}
use cdroid.Liblog.LogBuffer.{
  false, ltb, android_log_process_log_buffer, with_ends, LogEntry, LoggerEntry,
}
use cdroid.Prelude.{
  ==_self, Bool-cases, arith, List, ◌%◌, ◌⊎◌, Option, ℕ, none, some, inl, inr, refl, ◌∷◌, ◌++◌, [],
  ◌==◌, ap, ◌∙◌, ◌+◌, ◌-◌, length, ◌<◌, ◌≤◌, ◌≡◌, ◌^◌,
}

-- An entry in the buffer as it is left: the message ends before the end of the payload, at a NUL; or it
-- starts behind the payload and its length has wrapped.
abbrev pub EndsIn : ℕ → Option LogEntry × LoggerEntry → Type 0
EndsIn len (none, q) = Unit
EndsIn len (some e, q) =
    (2 ≤ e.message)
    × (q.msg (e.message - 1) ≡ 0)
    × (((e.message + e.message_len < len) × (q.msg (e.message + e.message_len) ≡ 0))
        ⊎ ((e.message ≡ len) × (e.message_len ≡ 2 ^ 32 - 1)))

module _ (buf : LoggerEntry) (w : buf.len < 2 ^ 16) (l : 3 ≤ buf.len) where
  behind :
      (k : ℕ)
      → 1 ≤ k
      → k < buf.len
      → buf.msg k ≡ 0
      → (o : Option ℕ) → first_nul buf.msg (buf.len - (k + 1)) (k + 1) ≡ o
      → EndsIn buf.len (with_ends buf (some (k + 1), o))
  behind k a b z (some stop) e =
      let (c, d, y) = first_nul-some buf.msg (buf.len - (k + 1)) (k + 1) stop e in
      let at : k + 1 + (stop + (2 ^ 32 - (k + 1))) % 2 ^ 32 ≡ stop = omega (arith, c, d, w) in
      let back : k + 1 - 1 ≡ k = omega arith in
      (omega arith, ap buf.msg back ∙ z, inl (omega (arith, at, d, b), ap buf.msg at ∙ y))
  behind k a b z none e = elim (Bool-cases (k + 1 == buf.len)) [
    | inl y ↦ (omega arith, ground (arith, b), inr (ground arith, ground (arith, w)))
    | inr o ↦
        let at : k + 1 + (buf.len - 1 + (2 ^ 32 - (k + 1))) % 2 ^ 32 ≡ buf.len - 1 =
          ground (arith, b, w) in
        let back : k + 1 - 1 ≡ k = omega arith in
        (
          omega arith,
          rw back (ground (arith, z)),
          inl (omega (arith, at, l), rw (at, ==_self (buf.len - 1)) refl),
        )
  ]

  ends_in :
      (o : Option ℕ)
      → first_nul buf.msg (buf.len - 1) 1 ≡ o
      → EndsIn buf.len (with_ends buf (ends_behind buf.msg buf.len o))
  ends_in none e = tt
  ends_in (some k) e =
      let (a, b, z) = first_nul-some buf.msg (buf.len - 1) 1 k e in
      behind k a (omega (arith, b, l)) z (first_nul buf.msg (buf.len - (k + 1)) (k + 1)) refl

-- android_log_processLogBuffer, on any record of 16-bit length for which it returns an entry,
-- gives a message that starts behind a NUL and ends before the end of the payload at a NUL in the
-- buffer it leaves; or the message starts at the end of the payload and its length is the largest
-- size_t, 2^32 - 1.
pub process-EndsIn :
    (buf : LoggerEntry) → buf.len < 2 ^ 16 → EndsIn buf.len (android_log_process_log_buffer buf)
unfolding android_log_process_log_buffer
process-EndsIn buf w = elim (Bool-cases (ltb buf.len 3)) [
  | inl y ↦ rw y tt
  | inr o ↦
      let l : 3 ≤ buf.len = ground arith in
      rw (o, scan_fresh buf.msg (buf.len - 1) 1 buf.len (omega arith))
        (ends_in buf w l (first_nul buf.msg (buf.len - 1) 1) refl)
]

-- android_log_processLogBuffer, on a record of 16-bit length that holds a priority, a tag that is
-- not empty and a NUL and nothing else, returns an entry whose message starts behind the payload
-- and whose length is the largest size_t, 2^32 - 1.
pub process_unended :
    (buf : LoggerEntry) (prio : ℕ) (tag : List ℕ)
    → Holds buf.msg 0 (prio ∷ (tag ++ 0 ∷ []))
    → NoNul tag
    → 1 ≤ length tag
    → buf.len ≡ length tag + 2
    → buf.len < 2 ^ 16
    → (android_log_process_log_buffer buf).0 ≡ some (entry_of buf prio buf.len (2 ^ 32 - 1))
unfolding android_log_process_log_buffer
process_unended buf prio tag h t n l w =
    let long : ltb buf.len 3 ≡ false = ground arith in
    let nul = first_nul-Holds buf.msg tag [] (buf.len - 1) 1 h.1 t (omega arith) in
    let at : 1 + length tag + 1 ≡ buf.len = omega (arith, l) in
    let none_left : buf.len - buf.len ≡ 0 = omega arith in
    let wrapped : (buf.len - 1 + (2 ^ 32 - buf.len)) % 2 ^ 32 ≡ 2 ^ 32 - 1 = omega (arith, l, w) in
    let begins : (0 == buf.len - 1) ≡ false = ground (arith, l, n) in
    rw
      (
        long,
        scan_fresh buf.msg (buf.len - 1) 1 buf.len (omega arith),
        nul,
        at,
        none_left,
        wrapped,
        begins,
        h.0,
      )
      refl
