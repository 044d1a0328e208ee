-- ===== src/Liblog/Filters/Rules.antt =====
-- Rules as they are written, and how src/lib/liblog/logprint.c reads one.
use cdroid.Liblog.Strings.{span_to, strsep_all, same_string}
use cdroid.Liblog.Filters.{
  log_default, log_unknown, log_debug, rest_at, put_rule, log_silent, android_log_add_filter_rule,
  is_separator, LogFormat, filter_char_to_pri, log_verbose, filter_pri_to_char,
}
use cdroid.Prelude.{
  ◌==◌, if◌then◌else◌, refl, ap, inr, inl, Bool-cases, ==_self, false, arith, true, some, [], ◌++◌,
  ◌≡◌, ◌≤◌, ◌∷◌, none, List, Option, All, ℕ,
}

-- One rule of a filter string, with the separator behind it.
pub record Rule : Type 0 where
  pub tag : List ℕ
  pub level : Option ℕ
  pub separator : ℕ

-- As it is written: the tag, and a colon and a letter where it has a level.
abbrev pub written_level : Option ℕ → List ℕ
written_level none = []
written_level (some l) = 58 ∷ filter_pri_to_char l ∷ []

abbrev pub expression : Rule → List ℕ
expression r = r.tag ++ written_level r.level

abbrev pub filter_string : List Rule → List ℕ
filter_string [] = []
filter_string (r ∷ rs) = expression r ++ r.separator ∷ filter_string rs

abbrev pub IsPriority : ℕ → Type 0
IsPriority l = (log_verbose ≤ l) × (l ≤ log_silent)

abbrev pub IsLevel : Option ℕ → Type 0
IsLevel none = Unit
IsLevel (some l) = IsPriority l

abbrev pub IsTag : List ℕ → Type 0
IsTag tag = (same_string [] tag ≡ false) × All (λ c. (c == 58) ≡ false) tag

-- A rule that can be read: the tag is not empty, and has no colon and no separator.
abbrev pub IsRule : Rule → Type 0
IsRule r =
    IsTag r.tag
    × All (λ c. is_separator c ≡ false) r.tag
    × IsLevel r.level
    × (is_separator r.separator ≡ true)

abbrev pub star : List ℕ
star = 42 ∷ []

-- A star alone stands for debug, a tag alone for verbose.
abbrev pub rule_level : Rule → ℕ
rule_level r = elim r.level [
  | none ↦ if same_string star r.tag then log_debug else log_verbose
  | some l ↦ l
]

abbrev pub or_else : ℕ → Option ℕ → ℕ
or_else d none = d
or_else d (some l) = l

-- The level in the last rule for the tag.
abbrev pub last_level : List ℕ → List Rule → Option ℕ
last_level tag [] = none
last_level tag (r ∷ rs) = elim (last_level tag rs) [
  | none ↦ if same_string tag r.tag then some (rule_level r) else none
  | some l ↦ some l
]

-- What the rules say of a tag: the last rule for it, or else the last one for the star, or else verbose.
abbrev pub level_of : List Rule → List ℕ → ℕ
level_of rs tag = or_else (or_else log_verbose (last_level star rs)) (last_level tag rs)

pub same_string_eq : (a b : List ℕ) → same_string a b ≡ true → a ≡ b
same_string_eq [] [] h = refl
same_string_eq [] (b ∷ bs) h = absurd (ground arith)
same_string_eq (a ∷ as_) [] h = absurd (ground arith)
same_string_eq (a ∷ as_) (b ∷ bs) h =
    let e : a ≡ b = ground arith in cc (e, same_string_eq as_ bs (ground arith))

pub same_string_self : (a : List ℕ) → same_string a a ≡ true
same_string_self [] = refl
same_string_self (a ∷ as_) = rw (==_self a) (same_string_self as_)

pub char-pri : (l : ℕ) → IsPriority l → filter_char_to_pri (filter_pri_to_char l) ≡ l
unfolding filter_char_to_pri filter_pri_to_char
char-pri l h = ground arith

pub letter_no_separator : (l : ℕ) → is_separator (filter_pri_to_char l) ≡ false
unfolding filter_pri_to_char
letter_no_separator l = ground arith

-- The first token is what stands before a separator.
pub strsep-append :
    (t : List ℕ) (c : ℕ) (cs : List ℕ)
    → All (λ x. is_separator x ≡ false) t
    → is_separator c ≡ true
    → strsep_all is_separator (t ++ c ∷ cs) ≡ t ∷ strsep_all is_separator cs
strsep-append [] c cs h s = rw s
strsep-append (x ∷ t) c cs h s = rw (h.0, strsep-append t c cs h.1 s)

pub span_to-append :
    (t cs : List ℕ) → All (λ c. (c == 58) ≡ false) t → span_to 58 (t ++ 58 ∷ cs) ≡ t
span_to-append [] cs h = refl
span_to-append (x ∷ t) cs h = rw (h.0, span_to-append t cs h.1)

pub rest_at-append :
    (t cs : List ℕ) → All (λ c. (c == 58) ≡ false) t → rest_at 58 (t ++ 58 ∷ cs) ≡ 58 ∷ cs
rest_at-append [] cs h = refl
rest_at-append (x ∷ t) cs h = rw (h.0, rest_at-append t cs h.1)

span_to-bare : (t : List ℕ) → All (λ c. (c == 58) ≡ false) t → span_to 58 (t ++ []) ≡ t
span_to-bare [] h = refl
span_to-bare (x ∷ t) h = rw (h.0, span_to-bare t h.1)

rest_at-bare : (t : List ℕ) → All (λ c. (c == 58) ≡ false) t → rest_at 58 (t ++ []) ≡ []
rest_at-bare [] h = refl
rest_at-bare (x ∷ t) h = rw (h.0, rest_at-bare t h.1)

-- What one rule does to a format.
abbrev pub apply_rule : LogFormat → List ℕ → ℕ → LogFormat
apply_rule f tag l =
    if same_string star tag
    then record f { global_pri = l }
    else record f { filters = record { tag = tag; pri = l } ∷ f.filters }

pub put_rule_no_default :
    (f : LogFormat) (tag : List ℕ) (l : ℕ) → IsPriority l → put_rule f tag l ≡ apply_rule f tag l
put_rule_no_default f tag l h = let e : (l == log_default) ≡ false = ground arith in rw e refl

pub add_rule_level :
    (f : LogFormat) (tag : List ℕ) (l : ℕ)
    → IsTag tag
    → IsPriority l
    → android_log_add_filter_rule f (tag ++ written_level (some l)) ≡ (true, apply_rule f tag l)
unfolding android_log_add_filter_rule
add_rule_level f tag l t h =
    let c = filter_pri_to_char l ∷ [] in
    let e : (l == log_unknown) ≡ false = ground arith in
    rw (span_to-append tag c t.1, rest_at-append tag c t.1, t.0, char-pri l h, e)
      (ap (λ g. (true, g)) (put_rule_no_default f tag l h))

pub add_rule_written :
    (f : LogFormat) (r : Rule)
    → IsTag r.tag
    → IsLevel r.level
    → android_log_add_filter_rule f (expression r) ≡ (true, apply_rule f r.tag (rule_level r))
unfolding android_log_add_filter_rule
add_rule_written f r t l = by_level r.level t l
  where
    by_level :
        (o : Option ℕ)
        → IsTag r.tag
        → IsLevel o
        → android_log_add_filter_rule f (r.tag ++ written_level o)
          ≡ (true, apply_rule f r.tag (rule_level (record r { level = o })))
    by_level none t l =
        rw (span_to-bare r.tag t.1, rest_at-bare r.tag t.1, t.0)
          (elim (Bool-cases (same_string star r.tag)) [ inl y ↦ rw y refl | inr n ↦ rw n refl ])
    by_level (some v) t l = add_rule_level f r.tag v t l
