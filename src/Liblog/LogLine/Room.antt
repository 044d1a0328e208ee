-- ===== src/Liblog/LogLine/Room.antt =====
-- The text and the room of android_log_formatLogLine of src/lib/liblog/logprint.c.
use cdroid.Liblog.LogLine.Split.{length-render, num_lines-split, join_lines-split, render, split}
use cdroid.Liblog.Filters.{PrintFormat}
use cdroid.Liblog.LogLine.{
  needed_size, has_nul, true, num_lines, leb, full_suffix, full_prefix, is_header_footer, false,
  buffer_len, LineEntry, Option, place, Place, Bool, in_buffer, buffer_size, written,
  android_log_format_log_line,
}
use cdroid.Liblog.LogLine.{default_buffer, new_buffer}
use cdroid.Prelude.{
  ◌≤◌, ◌^◌, subst, min, Bool-cases, length-take, arith, append_assoc, All, ℕ, List, none, some, inl,
  inr, refl, ◌++◌, ◌∷◌, [], ◌==◌, if◌then◌else◌, ap, ◌∙◌, ◌+◌, length, ◌<◌, ◌≡◌, length-append, sym,
}

-- Lines that are ended by newlines.
abbrev pub unlines : List (List ℕ) → List ℕ
unlines [] = []
unlines (l ∷ ls) = l ++ 10 ∷ unlines ls

abbrev pub NoNewline : List ℕ → Type 0
NoNewline = All (λ c. (c == 10) ≡ false)

-- A last line without a newline, if there is one.
abbrev pub last_line : List ℕ → List (List ℕ)
last_line [] = []
last_line (c ∷ cs) = (c ∷ cs) ∷ []

split-line : (l more : List ℕ) → NoNewline l → split (l ++ 10 ∷ more) ≡ l ∷ split more
split-line [] more h = refl
split-line (c ∷ l) more h = rw (h.0, split-line l more h.1) refl

split-last : (l : List ℕ) → NoNewline l → split l ≡ last_line l
split-last [] h = refl
split-last (c ∷ []) h = rw h.0 refl
split-last (c ∷ d ∷ l) h = rw (h.0, split-last (d ∷ l) h.1) refl

split-unlines :
    (ls : List (List ℕ)) (l : List ℕ)
    → All NoNewline ls
    → NoNewline l
    → split (unlines ls ++ l) ≡ ls ++ last_line l
split-unlines [] l h k = split-last l k
split-unlines (m ∷ ls) l h k =
    rw
      (
        append_assoc m (10 ∷ unlines ls) l,
        split-line m (unlines ls ++ l) h.0,
        split-unlines ls l h.1 k,
      )
      refl

-- In every format but the long one, android_log_formatLogLine writes of a message each line
-- between the prefix and the suffix of the format, in order, where the message consists of lines
-- ended by newlines and possibly a last line that is not, and has no NUL.
pub written-render :
    (format : PrintFormat) (entry : LineEntry) (ls : List (List ℕ)) (l : List ℕ)
    → is_header_footer format ≡ false
    → All NoNewline ls
    → NoNewline l
    → entry.message ≡ unlines ls ++ l
    → has_nul entry.message ≡ false
    → written format entry
      ≡ some (
          render
            (in_buffer (full_prefix format entry))
            (in_buffer (full_suffix format entry))
            (ls ++ last_line l))
unfolding written
written-render format entry ls l f h k e z =
    let p = in_buffer (full_prefix format entry) in
    let s = in_buffer (full_suffix format entry) in
    let lines : split entry.message ≡ ls ++ last_line l = ap split e ∙ split-unlines ls l h k in
    rw f (
      join_lines-split (length entry.message) p s entry.message z (omega arith)
      ∙ ap (λ x. some (render p s x)) lines)

clamp : {k : ℕ} (n m : ℕ) → k ≡ min n m → k ≡ (if leb (n + 1) m then n else m)
clamp n m h = ground (arith, h)

length-in_buffer : (s : List ℕ) → length (in_buffer s) ≡ buffer_len s
length-in_buffer s = clamp 127 (length s) (length-take 127 s)

num_lines-whole : (message : List ℕ) → num_lines true message ≡ 1
unfolding num_lines
num_lines-whole message = refl

-- What is written is less than the size that is computed for it.
written_fits :
    (format : PrintFormat) (entry : LineEntry)
    → has_nul entry.message ≡ false
    → (text : List ℕ) × (written format entry ≡ some text)
      × (length text < needed_size format entry)
unfolding written
written_fits format entry z =
    let p = in_buffer (full_prefix format entry) in
    let s = in_buffer (full_suffix format entry) in
    let lp = length-in_buffer (full_prefix format entry) in
    let ls = length-in_buffer (full_suffix format entry) in
    elim (Bool-cases (is_header_footer format)) [
      | inl y ↦ (
        p ++ (entry.message ++ s),
        rw (y, z) refl,
        rw (y, num_lines-whole entry.message)
            (omega
              (arith, lp, ls, length-append p (entry.message ++ s), length-append entry.message s)),
      )
      | inr o ↦ (
        render p s (split entry.message),
        rw o (join_lines-split (length entry.message) p s entry.message z (omega arith)),
        rw (o, num_lines-split entry.message, ← lp, ← ls)
            (omega (arith, length-render p s entry.message)),
      )
    ]

abbrev pub room : ℕ → ℕ → Place → ℕ
room default_size size default_buffer = default_size
room default_size size new_buffer = size

-- What decides between the buffers.
abbrev pub Chosen : ℕ → ℕ → Bool → Place → Type 0
Chosen default_size size malloc_gives default_buffer = size ≤ default_size
Chosen default_size size malloc_gives new_buffer = (malloc_gives ≡ true) × (default_size < size)

-- A result fits where it is written; there is none only for want of memory.
abbrev pub Fits : ℕ → ℕ → Bool → Option (Place × Option (List ℕ)) → Type 0
Fits default_size size malloc_gives none = (malloc_gives ≡ false) × (default_size < size)
Fits default_size size malloc_gives (some (p, none)) = ⊥
Fits default_size size malloc_gives (some (p, some text)) =
    (length text < room default_size size p) × Chosen default_size size malloc_gives p

placed :
    (d n : ℕ) (gives : Bool) (text : List ℕ)
    → length text < n
    → Fits d n gives (elim (place d n gives) [ none ↦ none | some p ↦ some (p, some text) ])
unfolding place
placed d n gives text l = elim (Bool-cases (leb n d)) [
  | inl y ↦ rw y (ground (arith, l), ground arith)
  | inr o ↦ rw o (by_malloc gives (ground arith))
]
  where
    by_malloc :
        (gives : Bool)
        → d < n
        → Fits d n gives (elim (if gives then some new_buffer else none) [
          | none ↦ none
          | some p ↦ some (p, some text)
        ])
    by_malloc true h = (l, (refl, h))
    by_malloc false h = (refl, h)

-- android_log_formatLogLine, for every format and default buffer and every entry whose message has
-- no NUL and whose text needs a size below 2^32, so that bufferSize does not wrap, has a loop that
-- ends, and what it writes is shorter than the buffer it writes to, the default one or one of the
-- size it has computed, so that the final NUL has room. There is no result exactly if malloc gives
-- nothing and the default buffer is smaller than that size, and the default buffer is used exactly
-- if it is not.
pub format_log_line-Fits :
    (format : PrintFormat) (default_size : ℕ) (malloc_gives : Bool) (entry : LineEntry)
    → has_nul entry.message ≡ false
    → needed_size format entry < 2 ^ 32
    → Fits default_size
        (buffer_size format entry)
        malloc_gives
        (android_log_format_log_line format default_size malloc_gives entry)
unfolding android_log_format_log_line buffer_size
format_log_line-Fits format default_size malloc_gives entry z w =
    let (text, e, l) = written_fits format entry z in
    let n = buffer_size format entry in
    subst
      (λ w.
        Fits default_size n malloc_gives
          (elim (place default_size n malloc_gives) [ none ↦ none | some p ↦ some (p, w) ]))
      (sym e) (placed default_size n malloc_gives text (omega (arith, l, w)))
