-- ===== src/Liblog/Filters/Levels.antt =====
-- Which lines pass the filters that android_log_addFilterString of src/lib/liblog/logprint.c sets.
use cdroid.Liblog.Strings.{strsep_all, same_string}
use cdroid.Liblog.Filters.Rules.{
  rest_at-append, span_to-append, IsTag, IsLevel, same_string_eq, level_of, add_rule_written,
  last_level, or_else, star, IsPriority, strsep-append, letter_no_separator, written_level,
  filter_string, expression, rule_level, apply_rule, IsRule, Rule,
}
use cdroid.Liblog.Filters.{
  log_unknown, filter_char_to_pri, android_log_add_filter_rule, log_default, log_verbose, true,
  android_log_should_print_line, android_log_format_new, pri_in, filter_pri_for_tag,
  android_log_add_filter_string, is_separator, ℕ, LogFormat, add_rules,
}
use cdroid.Prelude.{
  ◌⊎◌, none, some, inl, inr, inr, append-nil, inl, Bool-cases, All-append, arith, some, Option,
  false, All, List, ◌==◌, if◌then◌else◌, refl, ◌++◌, ◌∷◌, [], ◌∙◌, append_assoc, ◌≡◌, leb,
}

-- The format behind the rules.
abbrev after : LogFormat → List Rule → LogFormat
after f [] = f
after f (r ∷ rs) = after (apply_rule f r.tag (rule_level r)) rs

expression_no_separator : (r : Rule) → IsRule r → All (λ c. is_separator c ≡ false) (expression r)
expression_no_separator r h =
    All-append (λ c. is_separator c ≡ false) r.tag (written_level r.level) h.1 (letters r.level)
  where
    letters : (o : Option ℕ) → All (λ c. is_separator c ≡ false) (written_level o)
    letters none = tt
    letters (some l) = (refl, (letter_no_separator l, tt))

expression_not_empty : (r : Rule) → IsRule r → same_string [] (expression r) ≡ false
expression_not_empty r h = not_empty r.tag h.0.0
  where
    not_empty :
        (t : List ℕ)
        → same_string [] t ≡ false
        → same_string [] (t ++ written_level r.level) ≡ false
    not_empty [] e = absurd (ground arith)
    not_empty (x ∷ t) e = refl

-- The rules are taken one after the other.
add_rules-filter_string :
    (f : LogFormat) (rs : List Rule) (more : List ℕ)
    → All IsRule rs
    → add_rules f (strsep_all is_separator (filter_string rs ++ more))
      ≡ add_rules (after f rs) (strsep_all is_separator more)
unfolding add_rules
add_rules-filter_string f [] more h = refl
add_rules-filter_string f (r ∷ rs) more h =
    let e =
      strsep-append (expression r) r.separator (filter_string rs ++ more)
        (expression_no_separator r h.0) h.0.3 in
    rw
      (
        append_assoc (expression r) (r.separator ∷ filter_string rs) more,
        e,
        expression_not_empty r h.0,
        add_rule_written f r h.0.0 h.0.2,
      )
      (add_rules-filter_string (apply_rule f r.tag (rule_level r)) rs more h.1)

after-global :
    (f : LogFormat) (rs : List Rule)
    → (after f rs).global_pri ≡ or_else f.global_pri (last_level star rs)
after-global f [] = refl
after-global f (r ∷ rs) =
    after-global (apply_rule f r.tag (rule_level r)) rs ∙ step (last_level star rs)
  where
    step :
        (o : Option ℕ)
        → or_else (apply_rule f r.tag (rule_level r)).global_pri o
          ≡ or_else f.global_pri (elim o [
            | none ↦ if same_string star r.tag then some (rule_level r) else none
            | some l ↦ some l
          ])
    step none = ground arith
    step (some l) = refl

rule_level-IsPriority : (r : Rule) → IsRule r → IsPriority (rule_level r)
rule_level-IsPriority r h = by_level r.level h.2
  where
    by_level : (o : Option ℕ) → IsLevel o → IsPriority (rule_level (record r { level = o }))
    by_level none l = ground arith
    by_level (some v) l = l

-- What one more rule does to the walk for a tag that is not the star.
pri_in-apply_rule :
    (f : LogFormat) (r : Rule) (g : ℕ) (tag : List ℕ)
    → IsPriority (rule_level r)
    → same_string star tag ≡ false
    → pri_in g tag (apply_rule f r.tag (rule_level r)).filters
      ≡ (if same_string tag r.tag then rule_level r else pri_in g tag f.filters)
pri_in-apply_rule f r g tag p s = elim (Bool-cases (same_string tag r.tag)) [
  | inl same ↦
      let e : tag ≡ r.tag = same_string_eq tag r.tag same in
      let s' : same_string star r.tag ≡ false = rw (← e) s in
      let n : (rule_level r == log_default) ≡ false = ground arith in rw (s', same, n) refl
  | inr other ↦ elim (Bool-cases (same_string star r.tag)) [
    | inl y ↦ rw (y, other) refl
    | inr n ↦ rw (n, other) refl
  ]
]

after-filters :
    (f : LogFormat) (rs : List Rule) (g : ℕ) (tag : List ℕ)
    → All IsRule rs
    → same_string star tag ≡ false
    → pri_in g tag (after f rs).filters ≡ or_else (pri_in g tag f.filters) (last_level tag rs)
after-filters f [] g tag h s = refl
after-filters f (r ∷ rs) g tag h s =
    after-filters (apply_rule f r.tag (rule_level r)) rs g tag h.1 s
    ∙ step (last_level tag rs) (pri_in-apply_rule f r g tag (rule_level-IsPriority r h.0) s)
  where
    step :
        {a : ℕ} (o : Option ℕ)
        → a ≡ (if same_string tag r.tag then rule_level r else pri_in g tag f.filters)
        → or_else a o
          ≡ or_else (pri_in g tag f.filters) (elim o [
            | none ↦ if same_string tag r.tag then some (rule_level r) else none
            | some l ↦ some l
          ])
    step none e = ground arith
    step (some l) e = refl

-- No rule stands among the filters under the star.
after-star :
    (f : LogFormat) (rs : List Rule) (g : ℕ)
    → pri_in g star (after f rs).filters ≡ pri_in g star f.filters
after-star f [] g = refl
after-star f (r ∷ rs) g =
    after-star (apply_rule f r.tag (rule_level r)) rs g
    ∙ elim (Bool-cases (same_string star r.tag)) [ inl y ↦ rw y refl | inr n ↦ rw (n, n) refl ]

pri_of-after :
    (rs : List Rule) (tag : List ℕ)
    → All IsRule rs
    → filter_pri_for_tag (after android_log_format_new rs) tag ≡ level_of rs tag
unfolding filter_pri_for_tag android_log_format_new
pri_of-after rs tag h = elim (Bool-cases (same_string star tag)) [
  | inl y ↦
      rw
        (
          ← same_string_eq star tag y,
          after-star android_log_format_new rs,
          after-global android_log_format_new rs,
        )
        (twice (last_level star rs))
  | inr n ↦
      rw
        (
          after-filters android_log_format_new rs (after android_log_format_new rs).global_pri tag h
              n,
          after-global android_log_format_new rs,
        )
        refl
]
  where
    twice : (o : Option ℕ) → or_else log_verbose o ≡ or_else (or_else log_verbose o) o
    twice none = refl
    twice (some l) = refl

-- android_log_addFilterString, on a new format and a string of rules that can be read, each a tag
-- with no colon and no separator, alone or with a colon and the letter of a level, and a separator
-- behind it, returns 0, and then android_log_shouldPrintLine lets a line pass exactly if its
-- priority is at least the level that the rules give its tag: that of the last rule for the tag,
-- or else of the last rule for the star, or else verbose. A tag alone stands for verbose and a
-- star alone for debug.
pub add_filter_string-levels :
    (rs : List Rule) (tag : List ℕ) (pri : ℕ)
    → All IsRule rs
    → let r = android_log_add_filter_string android_log_format_new (filter_string rs) in
      (r.0 ≡ true) × (android_log_should_print_line r.1 tag pri ≡ leb (level_of rs tag) pri)
unfolding android_log_add_filter_string android_log_should_print_line add_rules
add_filter_string-levels rs tag pri h =
    rw
      (
        ← append-nil (filter_string rs),
        add_rules-filter_string android_log_format_new rs [] h,
        pri_of-after rs tag h,
      )
      (refl, refl)

-- An expression that cannot be read: no tag before the colon, or a byte behind it that is no priority.
abbrev pub IsBad : List ℕ → Type 0
IsBad expr =
    ((x : List ℕ) × (expr ≡ 58 ∷ x))
    ⊎ ((tag : List ℕ) × (c : ℕ) × (x : List ℕ) × IsTag tag
        × (filter_char_to_pri c ≡ log_unknown)
        × (expr ≡ tag ++ 58 ∷ c ∷ x))

add_rule_bad :
    (f : LogFormat) (expr : List ℕ)
    → IsBad expr
    → (same_string [] expr ≡ false) × (android_log_add_filter_rule f expr ≡ (false, f))
unfolding android_log_add_filter_rule
add_rule_bad f expr (inl (x, e)) = rw e (refl, refl)
add_rule_bad f expr (inr (tag, c, x, t, u, e)) = rw e (
  not_empty tag t.0,
  rw (span_to-append tag (c ∷ x) t.1, rest_at-append tag (c ∷ x) t.1, t.0, u) refl,
)
  where
    not_empty : (s : List ℕ) → same_string [] s ≡ false → same_string [] (s ++ 58 ∷ c ∷ x) ≡ false
    not_empty [] h = absurd (ground arith)
    not_empty (y ∷ s) h = refl

stops_at :
    (rs : List Rule) (bad : List ℕ) (separator : ℕ) (more : List ℕ)
    → All IsRule rs
    → IsBad bad
    → All (λ c. is_separator c ≡ false) bad
    → is_separator separator ≡ true
    → android_log_add_filter_string android_log_format_new
        (filter_string rs ++ (bad ++ separator ∷ more))
      ≡ (false, after android_log_format_new rs)
unfolding android_log_add_filter_string add_rules
stops_at rs bad separator more h b n s =
    let (e, e') = add_rule_bad (after android_log_format_new rs) bad b in
    add_rules-filter_string android_log_format_new rs (bad ++ separator ∷ more) h
    ∙ rw (strsep-append bad separator more n s, e, e') refl

-- android_log_addFilterString, on a new format and a string in which an expression without a tag,
-- or with a byte behind its colon that is no priority, stands behind rules that can be read,
-- returns -1 whatever follows, and leaves the rules before it in force and none behind it.
pub add_filter_string-stops :
    (rs : List Rule) (bad : List ℕ) (separator : ℕ) (more tag : List ℕ) (pri : ℕ)
    → All IsRule rs
    → IsBad bad
    → All (λ c. is_separator c ≡ false) bad
    → is_separator separator ≡ true
    → let r =
        android_log_add_filter_string android_log_format_new
          (filter_string rs ++ (bad ++ separator ∷ more)) in
      (r.0 ≡ false) × (android_log_should_print_line r.1 tag pri ≡ leb (level_of rs tag) pri)
unfolding android_log_should_print_line
add_filter_string-stops rs bad separator more tag pri h b n s =
    rw (stops_at rs bad separator more h b n s, pri_of-after rs tag h) (refl, refl)
