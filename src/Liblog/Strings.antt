-- ===== src/Liblog/Strings.antt =====
-- What src/lib/liblog uses of the C library's strings.
use cdroid.Prelude.{ℕ, ◌+◌, Bool, true, false, ◌&&◌, List, [], ◌∷◌, ◌==◌, leb, if◌then◌else◌}

-- strcmp(a, b) == 0
abbrev pub same_string : List ℕ → List ℕ → Bool
same_string [] [] = true
same_string [] (b ∷ bs) = false
same_string (a ∷ as_) [] = false
same_string (a ∷ as_) (b ∷ bs) = (a == b) && same_string as_ bs

-- tolower, in the C locale
abbrev pub tolower : ℕ → ℕ
tolower c = if leb 65 c && leb c 90 then c + 32 else c

-- The first strcspn(s, stop) bytes of `s`.
abbrev pub span_to : ℕ → List ℕ → List ℕ
span_to stop [] = []
span_to stop (c ∷ cs) = if c == stop then [] else c ∷ span_to stop cs

-- What is at and behind them.
abbrev pub rest_at : ℕ → List ℕ → List ℕ
rest_at stop [] = []
rest_at stop (c ∷ cs) = if c == stop then c ∷ cs else rest_at stop cs

-- The byte at the place, 0 at the end.
abbrev pub char_at_start : List ℕ → ℕ
char_at_start [] = 0
char_at_start (c ∷ cs) = c

abbrev to_first : ℕ → List (List ℕ) → List (List ℕ)
to_first c [] = (c ∷ []) ∷ []
to_first c (t ∷ ts) = (c ∷ t) ∷ ts

-- All that strsep with the bytes of `is_stop` gives, up to the null pointer.
abbrev pub strsep_all : (ℕ → Bool) → List ℕ → List (List ℕ)
strsep_all is_stop [] = [] ∷ []
strsep_all is_stop (c ∷ cs) =
    let rest = strsep_all is_stop cs in if is_stop c then [] ∷ rest else to_first c rest
