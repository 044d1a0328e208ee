-- ===== src/ServiceManager/Registry.antt =====
-- What is found behind a registration.
use cdroid.Prelude.{
  none, ◌⊎◌, Option-cases, Bool, if◌then◌else◌, subst₂, arith, subst, sym, inr, ◌∙◌, ap, ==_iff,
  inl, ==_self, Bool-cases, ◌≡◌, ℕ, List, refl, [], ◌∷◌, true, false, some, ◌==◌,
}
use cdroid.ServiceManager.{
  watch, refuses, is_isolated, do_find_service, do_add_service, put_svc, same_name, svcinfo_death,
  Manager, SvcInfo, find_svc,
}

same_name_refl : (n : List ℕ) → same_name n n ≡ true
same_name_refl [] = refl
same_name_refl (a ∷ n) = rw (==_self a, same_name_refl n) refl

same_name_eq : (n k : List ℕ) → same_name n k ≡ true → n ≡ k
same_name_eq [] [] h = refl
same_name_eq [] (b ∷ k) h = cc
same_name_eq (a ∷ n) [] h = cc
same_name_eq (a ∷ n) (b ∷ k) h = elim (Bool-cases (a == b)) [
  | inl e ↦
      let same : a ≡ b = (==_iff a b).0 e in
      let rest : same_name n k ≡ true = ground (arith, h) in
      subst₂ (λ u v. a ∷ n ≡ u ∷ v) same (same_name_eq n k rest) refl
  | inr e ↦ absurd (ground (arith, h))
]

abbrev set_ptr : ℕ → SvcInfo → SvcInfo
set_ptr p i = record i { ptr = p }

module _ (name : List ℕ) (p : ℕ) where
  find-put_self :
      (list : List SvcInfo) (si : SvcInfo)
      → find_svc name list ≡ some si
      → find_svc name (put_svc name (set_ptr p) list) ≡ some (set_ptr p si)
  unfolding find_svc
  find-put_self [] si h = cc
  find-put_self (x ∷ list) si h = elim (Bool-cases (same_name name x.name)) [
    | inl e ↦
        let h' : some x ≡ some si = rw e at h in
        let same : x ≡ si = cc in rw (e, e) (ap (λ i. some (set_ptr p i)) same)
    | inr e ↦
        let h' : find_svc name list ≡ some si = rw e at h in rw (e, e) (find-put_self list si h')
  ]

  find-put_ne :
      (other : List ℕ) (list : List SvcInfo)
      → same_name other name ≡ false
      → find_svc other (put_svc name (set_ptr p) list) ≡ find_svc other list
  unfolding find_svc
  find-put_ne other [] h = refl
  find-put_ne other (x ∷ list) h = elim (Bool-cases (same_name name x.name)) [
    | inl e ↦
        let not_here : same_name other x.name ≡ false =
          ap (same_name other) (sym (same_name_eq name x.name e)) ∙ h in
        rw (e, not_here) refl
    | inr e ↦
        rw e (ap (λ o. if same_name other x.name then some x else o) (find-put_ne other list h))
  ]

find-name :
    (name : List ℕ) (list : List SvcInfo) (si : SvcInfo)
    → find_svc name list ≡ some si
    → name ≡ si.name
unfolding find_svc
find-name name [] si h = cc
find-name name (x ∷ list) si h = elim (Bool-cases (same_name name x.name)) [
  | inl e ↦
      let h' : some x ≡ some si = rw e at h in
      let same : x ≡ si = cc in same_name_eq name x.name e ∙ ap (λ i. i.name) same
  | inr e ↦ let h' : find_svc name list ≡ some si = rw e at h in find-name name list si h'
]

death-find :
    (m : Manager) (name : List ℕ) (si : SvcInfo)
    → find_svc name m.svclist ≡ some si
    → (i : SvcInfo) × (find_svc name (svcinfo_death m si).svclist ≡ some i)
      × ((other : List ℕ)
          → same_name other name ≡ false
          → find_svc other (svcinfo_death m si).svclist ≡ find_svc other m.svclist)
unfolding svcinfo_death
death-find m name si h = elim (Bool-cases (si.ptr == 0)) [
  | inl gone ↦ (si, rw (svcinfo_death, gone) h, λ other k. rw (svcinfo_death, gone) refl)
  | inr held ↦
      let same = find-name name m.svclist si h in
      (
        set_ptr 0 si,
        rw (svcinfo_death, held)
            (subst (λ n. find_svc name (put_svc n (set_ptr 0) m.svclist) ≡ some (set_ptr 0 si)) same
              (find-put_self name 0 m.svclist si h)),
        λ other k.
            rw (svcinfo_death, held)
              (subst
                (λ n. find_svc other (put_svc n (set_ptr 0) m.svclist) ≡ find_svc other m.svclist)
                same (find-put_ne name 0 other m.svclist k)),
      )
]

finds :
    (m : Manager) (name : List ℕ) (i : SvcInfo) (caller : ℕ)
    → find_svc name m.svclist ≡ some i
    → is_isolated caller ≡ false
    → do_find_service m name caller ≡ i.ptr
unfolding do_find_service
finds m name i caller h free = rw (do_find_service, h) (ground (arith, free))

same_find :
    (m q : Manager) (name : List ℕ) (caller : ℕ)
    → find_svc name q.svclist ≡ find_svc name m.svclist
    → do_find_service q name caller ≡ do_find_service m name caller
unfolding do_find_service
same_find m q name caller h = rw (do_find_service, h) refl

-- The service is found under the name, and all else as before.
abbrev pub Found : Manager → Manager → List ℕ → ℕ → Type 0
Found m q name ptr =
    ((caller : ℕ) → is_isolated caller ≡ false → do_find_service q name caller ≡ ptr)
    × ((other : List ℕ) (caller : ℕ)
        → same_name other name ≡ false
        → do_find_service q other caller ≡ do_find_service m other caller)

abbrev added : Manager → List ℕ → ℕ → Bool → Manager
added m name ptr allow_isolated =
    watch
      (record m {
        svclist = record { ptr = ptr; allow_isolated = allow_isolated; name = name } ∷ m.svclist;
      })
      ptr name

added-Found :
    (m : Manager) (name : List ℕ) (ptr : ℕ) (allow_isolated : Bool)
    → Found m (added m name ptr allow_isolated) name ptr
unfolding find_svc
added-Found m name ptr allow_isolated =
    let q = added m name ptr allow_isolated in
    let entry : SvcInfo = record { ptr = ptr; allow_isolated = allow_isolated; name = name } in
    (
      λ caller free. finds q name entry caller (rw (find_svc, same_name_refl name) refl) free,
      λ other caller k. same_find m q other caller (rw (find_svc, k) refl),
    )

abbrev replaced : Manager → List ℕ → ℕ → SvcInfo → Manager
replaced m name ptr si =
    let q = svcinfo_death m si in
    watch (record q { svclist = put_svc name (λ i. record i { ptr = ptr }) q.svclist }) ptr name

replaced-Found :
    (m : Manager) (name : List ℕ) (ptr : ℕ) (si : SvcInfo)
    → find_svc name m.svclist ≡ some si
    → Found m (replaced m name ptr si) name ptr
replaced-Found m name ptr si h =
    let q = replaced m name ptr si in
    let (i, here, others) = death-find m name si h in
    let list = (svcinfo_death m si).svclist in
    (
      λ caller free. finds q name (set_ptr ptr i) caller (find-put_self name ptr list i here) free,
      λ other caller k.
          same_find m q other caller (find-put_ne name ptr other list k ∙ others other k),
    )

-- Behind a registration, with its result: a failure is a refusal or a lack of memory.
abbrev pub Registered : Manager → Bool → Manager → List ℕ → List ℕ → ℕ → ℕ → Bool → Type 0
Registered m true q name behind ptr uid memory = Found m q name ptr
Registered m false q name behind ptr uid memory =
    (q ≡ m)
    × ((refuses name behind ptr uid ≡ true) ⊎ ((memory ≡ false) × (find_svc name m.svclist ≡ none)))

-- The outcomes of do_add_service.
add_cases :
    (m : Manager) (name behind : List ℕ) (ptr uid : ℕ) (allow_isolated memory : Bool)
    → (r : Bool) × (q : Manager) × (do_add_service m name behind ptr uid allow_isolated memory
        ≡ (r, q))
      × Registered m r q name behind ptr uid memory
unfolding do_add_service
add_cases m name behind ptr uid allow_isolated memory =
    elim (Bool-cases (refuses name behind ptr uid)) [
      | inl bad ↦ (false, m, rw (do_add_service, bad) refl, (refl, inl bad))
      | inr fine ↦ elim (Option-cases (find_svc name m.svclist)) [
        | inr (si, e) ↦ (
          true,
          replaced m name ptr si,
          rw (do_add_service, fine, e) refl,
          replaced-Found m name ptr si e,
        )
        | inl e ↦ elim (Bool-cases memory) [
          | inl room ↦ (
            true,
            added m name ptr allow_isolated,
            rw (do_add_service, fine, e, room) refl,
            added-Found m name ptr allow_isolated,
          )
          | inr full ↦ (false, m, rw (do_add_service, fine, e, full) refl, (refl, inr (full, e)))
        ]
      ]
    ]

-- Behind a successful do_add_service, do_find_service gives the reference registered to every
-- caller that is not isolated, and under every other name what it gave before. A failure changes
-- nothing, and comes from a refused request or from a lack of memory for a new name.
pub do_add_service-Registered :
    (m q : Manager) (name behind : List ℕ) (ptr uid : ℕ) (allow_isolated memory r : Bool)
    → do_add_service m name behind ptr uid allow_isolated memory ≡ (r, q)
    → Registered m r q name behind ptr uid memory
do_add_service-Registered m q name behind ptr uid allow_isolated memory r h =
    let (r', q', e, post) = add_cases m name behind ptr uid allow_isolated memory in
    subst (λ z. Registered m z.0 z.1 name behind ptr uid memory) (sym e ∙ h) post
