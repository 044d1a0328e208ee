-- ===== src/Driver/Ref/Counts.antt =====
-- The strong count of a node against its references.
use cdroid.Prelude.{
  ==_self, sym, ap, subst, inr, ==_iff, ◌∙◌, Bool-cases, count, ◌⊎◌, ◌≢◌, inl, if◌then◌else◌, ◌==◌,
  ℕ, ◌+◌, ◌≡◌, refl, List, [], ◌∷◌, Option, none, some, Bool, false, arith,
}
use cdroid.Driver.Store.{Node, Ref, put_at}

abbrev pub strong_bit : Option Ref → ℕ
strong_bit none = 0
strong_bit (some r) = if r.strong == 0 then 0 else 1

-- How many of these references hold a strong count.
abbrev pub strong_in : (ℕ → Option Ref) → List ℕ → ℕ
strong_in ref [] = 0
strong_in ref (a ∷ rest) = strong_bit (ref a) + strong_in ref rest

-- Whether a reference is there and is one to the node at `b`.
abbrev pub refers : Option Ref → ℕ → Bool
refers none b = false
refers (some r) b = r.node == b

-- The list of a node has exactly the references to it, each once, and its internal strong count is
-- the number of those that hold a strong count; the node of a reference is there.
pub record IsCounted (node : ℕ → Option Node) (ref : ℕ → Option Ref) : Type 0 where
  pub counted : (b : ℕ) (n : Node) → node b ≡ some n → n.internal_strong_refs ≡ strong_in ref n.refs
  pub listed :
      (b : ℕ) (n : Node)
      → node b ≡ some n
      → (a : ℕ) → count a n.refs ≡ (if refers (ref a) b then 1 else 0)
  pub alive : (a : ℕ) (r : Ref) → ref a ≡ some r → node r.node ≢ none

-- A changed reference counts once more or less.
strong_in-put_absent :
    (ref : ℕ → Option Ref) (a : ℕ) (r' : Option Ref) (xs : List ℕ)
    → count a xs ≡ 0
    → strong_in (put_at a r' ref) xs ≡ strong_in ref xs
strong_in-put_absent ref a r' [] z = refl
strong_in-put_absent ref a r' (x ∷ xs) z = elim (Bool-cases (x == a)) [
  | inl e ↦ absurd (ground arith)
  | inr e ↦
      rw e (ap (λ k. strong_bit (ref x) + k) (strong_in-put_absent ref a r' xs (ground arith)))
]

pub strong_in-put_at :
    (ref : ℕ → Option Ref) (a : ℕ) (r' : Option Ref) (xs : List ℕ)
    → count a xs ≡ 1
    → strong_in (put_at a r' ref) xs + strong_bit (ref a) ≡ strong_in ref xs + strong_bit r'
strong_in-put_at ref a r' [] z = absurd (omega arith)
strong_in-put_at ref a r' (x ∷ xs) z = elim (Bool-cases (x == a)) [
  | inl e ↦
      let same : x ≡ a = (==_iff x a).0 e in
      let rest = strong_in-put_absent ref a r' xs (ground arith) in
      let bit : strong_bit (ref x) ≡ strong_bit (ref a) = ap (λ y. strong_bit (ref y)) same in
      rw e (omega (arith, rest, bit))
  | inr e ↦ rw e (omega (arith, strong_in-put_at ref a r' xs (ground arith)))
]

module _ (node : ℕ → Option Node) (ref : ℕ → Option Ref) (v : IsCounted node ref) (a : ℕ) (r : Ref)
    (n : Node) (here : ref a ≡ some r) (at : node r.node ≡ some n) where
  once : count a n.refs ≡ 1
  once =
      v.listed r.node n at a
      ∙ ap (λ o. if refers o r.node then 1 else 0) here
      ∙ ap (λ t. if t then 1 else 0) (==_self r.node)

  not_listed : (b : ℕ) (m : Node) → node b ≡ some m → (b == r.node) ≡ false → count a m.refs ≡ 0
  not_listed b m e other =
      let differ : (r.node == b) ≡ false = ground arith in
      v.listed b m e a
      ∙ ap (λ o. if refers o b then 1 else 0) here
      ∙ ap (λ t. if t then 1 else 0) differ

  module _ (node' : ℕ → Option Node) (n' : Node) (r' : Ref)
      (put : (c : ℕ) → node' c ≡ put_at r.node (some n') node c) (same_refs : n'.refs ≡ n.refs)
      (same_node : r'.node ≡ r.node)
      (tally : n'.internal_strong_refs + strong_bit (some r)
        ≡ n.internal_strong_refs + strong_bit (some r')) where
    abbrev ref' : ℕ → Option Ref
    ref' = put_at a (some r') ref

    which :
        (b : ℕ) (m : Node)
        → node' b ≡ some m
        → ((b ≡ r.node) × (n' ≡ m)) ⊎ (((b == r.node) ≡ false) × (node b ≡ some m))
    which b m e = elim (Bool-cases (b == r.node)) [
      | inl q ↦ let h : some n' ≡ some m = rw (put b, q) at e in inl ((==_iff b r.node).0 q, cc)
      | inr q ↦ let h : node b ≡ some m = rw (put b, q) at e in inr (q, h)
    ]

    refers_same : (c b : ℕ) → refers (ref' c) b ≡ refers (ref c) b
    refers_same c b = elim (Bool-cases (c == a)) [
      | inl q ↦
          let same : c ≡ a = (==_iff c a).0 q in
          rw q (ap (λ k. k == b) same_node ∙ sym (ap (λ o. refers o b) (ap ref same ∙ here)))
      | inr q ↦ rw q refl
    ]

    still : (d : ℕ) → node d ≢ none → node' d ≢ none
    still d l z = elim (Bool-cases (d == r.node)) [
      | inl q ↦ let h : some n' ≡ none = rw (put d, q) at z in cc
      | inr q ↦ let h : node d ≡ none = rw (put d, q) at z in l h
    ]

    -- The reference and its node change together: the counts by one, or neither.
    pub retally : IsCounted node' ref'
    retally = record {
      counted = λ b m e. elim (which b m e) [
        | inl (same, it) ↦
            subst (λ m. m.internal_strong_refs ≡ strong_in ref' m.refs) it
              (omega (
                arith,
                ap (strong_in ref') same_refs,
                strong_in-put_at ref a (some r') n.refs once,
                v.counted r.node n at,
                tally,
                ap strong_bit here,
              ))
        | inr (q, e') ↦
            v.counted b m e'
            ∙ sym (strong_in-put_absent ref a (some r') m.refs (not_listed b m e' q))
      ];
      listed = λ b m e c. elim (which b m e) [
        | inl (same, it) ↦
            subst (λ m. count c m.refs ≡ (if refers (ref' c) b then 1 else 0)) it
              (ap (count c) same_refs
                ∙ v.listed r.node n at c
                ∙ ap (λ k. if refers (ref c) k then 1 else 0) (sym same)
                ∙ ap (λ t. if t then 1 else 0) (sym (refers_same c b)))
        | inr (q, e') ↦ v.listed b m e' c ∙ ap (λ t. if t then 1 else 0) (sym (refers_same c b))
      ];
      alive = λ c m e. elim (Bool-cases (c == a)) [
        | inl q ↦
            let h : some r' ≡ some m = rw q at e in
            let it : r' ≡ m = cc in
            still m.node (
              subst (λ m. node m.node ≢ none) it
                (λ z. let y : some n ≡ none = sym at ∙ ap node (sym same_node) ∙ z in cc))
        | inr q ↦ let h : ref c ≡ some m = rw q at e in still m.node (v.alive c m h)
      ];
    }
