-- ===== src/Liblog/LogLine/Split.antt =====
-- The lines of a message, and what android_log_formatLogLine of src/lib/liblog/logprint.c makes of them.
use cdroid.Liblog.Strings.{rest_at, span_to}
use cdroid.Liblog.LogLine.{
  has_nul, last_byte, count_newlines, false, skip_newline, join_lines, num_lines,
}
use cdroid.Prelude.{
  Bool-cases, arith, ℕ, List, some, inl, inr, refl, ◌++◌, ◌∷◌, [], ◌==◌, if◌then◌else◌, ap, ◌∙◌,
  zero, suc, ◌+◌, ◌*◌, length, ◌≤◌, ◌≡◌, length-append, sym,
}

abbrev pub to_line : ℕ → List (List ℕ) → List (List ℕ)
to_line c [] = (c ∷ []) ∷ []
to_line c (l ∷ ls) = (c ∷ l) ∷ ls

-- The lines of a message; a newline at its end starts no further line.
abbrev pub split : List ℕ → List (List ℕ)
split [] = []
split (c ∷ cs) = if c == 10 then [] ∷ split cs else to_line c (split cs)

-- Each line between the prefix and the suffix.
abbrev pub render : List ℕ → List ℕ → List (List ℕ) → List ℕ
render prefix suffix [] = []
render prefix suffix (l ∷ ls) = (prefix ++ (l ++ suffix)) ++ render prefix suffix ls

split_step :
    (c : ℕ) (cs : List ℕ)
    → split (c ∷ cs) ≡ span_to 10 (c ∷ cs) ∷ split (skip_newline (rest_at 10 (c ∷ cs)))
split_step c [] = elim (Bool-cases (c == 10)) [ inl y ↦ rw (y, y) refl | inr o ↦ rw o refl ]
split_step c (d ∷ ds) =
    let next = split_step d ds in
    elim (Bool-cases (c == 10)) [ inl y ↦ rw (y, y) refl | inr o ↦ rw (o, next) refl ]

length-skip_newline : (cs : List ℕ) → length (skip_newline cs) ≤ length cs
length-skip_newline [] = omega arith
length-skip_newline (c ∷ cs) = ground arith

length-rest_at : (cs : List ℕ) → length (rest_at 10 cs) ≤ length cs
length-rest_at [] = omega arith
length-rest_at (c ∷ cs) = ground (arith, length-rest_at cs)

shorter : (c : ℕ) (cs : List ℕ) → length (skip_newline (rest_at 10 (c ∷ cs))) ≤ length cs
shorter c cs = elim (Bool-cases (c == 10)) [
  | inl y ↦ rw (y, y) (omega arith)
  | inr o ↦ rw o (omega (arith, length-skip_newline (rest_at 10 cs), length-rest_at cs))
]

-- Without a NUL in the message there is none in its lines.
has_nul-span_to : (cs : List ℕ) → has_nul cs ≡ false → has_nul (span_to 10 cs) ≡ false
has_nul-span_to [] h = refl
has_nul-span_to (c ∷ cs) h = ground (arith, h, has_nul-span_to cs)

has_nul-skip_newline : (cs : List ℕ) → has_nul cs ≡ false → has_nul (skip_newline cs) ≡ false
has_nul-skip_newline [] h = refl
has_nul-skip_newline (c ∷ cs) h = ground (arith, h)

has_nul-rest_at : (cs : List ℕ) → has_nul cs ≡ false → has_nul (rest_at 10 cs) ≡ false
has_nul-rest_at [] h = refl
has_nul-rest_at (c ∷ cs) h = ground (arith, h, has_nul-rest_at cs)

-- The loop gives the lines rendered, on as much fuel as the message has bytes, if none is a NUL.
pub join_lines-split :
    (fuel : ℕ) (prefix suffix message : List ℕ)
    → has_nul message ≡ false
    → length message ≤ fuel
    → join_lines fuel prefix suffix message ≡ some (render prefix suffix (split message))
unfolding join_lines
join_lines-split fuel prefix suffix [] z l = refl
join_lines-split zero prefix suffix (c ∷ cs) z l = absurd (omega arith)
join_lines-split (suc fuel) prefix suffix (c ∷ cs) z l =
    let more = skip_newline (rest_at 10 (c ∷ cs)) in
    rw
      (
        has_nul-span_to (c ∷ cs) z,
        join_lines-split fuel prefix suffix more
            (has_nul-skip_newline (rest_at 10 (c ∷ cs)) (has_nul-rest_at (c ∷ cs) z))
            (omega (arith, shorter c cs)),
      )
      (ap (λ ls. some (render prefix suffix ls)) (sym (split_step c cs)))

-- The loop before it counts the lines.
pub num_lines-split : (message : List ℕ) → num_lines false message ≡ length (split message)
unfolding num_lines
num_lines-split [] = refl
num_lines-split (c ∷ cs) = counted c cs
  where
    length-to_line :
        (c d : ℕ) (ds : List ℕ) → length (to_line c (split (d ∷ ds))) ≡ length (split (d ∷ ds))
    length-to_line c d ds = rw (split_step d ds) refl

    counted :
        (c : ℕ) (cs : List ℕ)
        → count_newlines (c ∷ cs) + (if last_byte c cs == 10 then 0 else 1)
          ≡ length (split (c ∷ cs))
    counted c [] = ground arith
    counted c (d ∷ ds) = ground (arith, length-to_line c d ds, counted d ds)

-- The bytes of all lines.
abbrev total : List (List ℕ) → ℕ
total [] = 0
total (l ∷ ls) = length l + total ls

total-to_line : (c : ℕ) (ls : List (List ℕ)) → total (to_line c ls) ≡ total ls + 1
total-to_line c [] = refl
total-to_line c (l ∷ ls) = omega arith

total-split : (message : List ℕ) → total (split message) ≤ length message
total-split [] = omega arith
total-split (c ∷ cs) = ground (arith, total-split cs, total-to_line c (split cs))

render_line :
    (p s l rest : List ℕ) (n w t : ℕ)
    → w ≡ length p + length s
    → length rest ≡ n * w + t
    → length ((p ++ (l ++ s)) ++ rest) ≡ (n + 1) * w + (length l + t)
render_line p s l rest n w t e h =
    omega
      (arith, e, h, length-append (p ++ (l ++ s)) rest, length-append p (l ++ s), length-append l s)

length-render_lines :
    (p s : List ℕ) (ls : List (List ℕ))
    → length (render p s ls) ≡ length ls * (length p + length s) + total ls
length-render_lines p s [] = omega arith
length-render_lines p s (l ∷ ls) =
    let w = length p + length s in
    render_line p s l (render p s ls) (length ls) w (total ls) refl (length-render_lines p s ls)
    ∙ ap (λ n. n * w + (length l + total ls)) (omega arith)

-- No more bytes than the lines with their frames and the message.
pub length-render :
    (p s message : List ℕ)
    → length (render p s (split message))
      ≤ length (split message) * (length p + length s) + length message
length-render p s message =
    omega (arith, length-render_lines p s (split message), total-split message)
