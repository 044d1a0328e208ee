-- ===== src/Libbinder/Parcel/Hint.antt =====
-- The search of readObject in src/lib/binder/Parcel.cpp, which starts at the hint of the last one.
use cdroid.Libbinder.Parcel.Reading.{search_forward, search_backward, find_object}
use cdroid.Prelude.{
  if◌then◌else◌, subst, ◌∙◌, subst, ap, ℕ, zero, suc, ◌≡◌, ◌≤◌, ◌<◌, ◌+◌, ◌-◌, ◌==◌, ◌⊎◌, inl, inr,
  if◌then◌else◌, arith, refl, List, length, some, get_or, ltb, Bool-cases, true,
}

-- The offsets of the objects, in order.
abbrev pub IsAscending : List ℕ → Type 0
IsAscending objs = (i j : ℕ) → i < j → j < length objs → get_or objs i 0 < get_or objs j 0

module _ (objs : List ℕ) (pos : ℕ) where
  -- Where the first search stops.
  abbrev StopsForward : ℕ → ℕ → Type 0
  StopsForward last f = (f ≤ last) × ((f ≡ last) ⊎ (pos ≤ get_or objs f 0))

  search_forward-StopsForward :
      (n opos : ℕ) → StopsForward (opos + n) (search_forward objs pos opos n)
  unfolding search_forward
  search_forward-StopsForward zero opos = (omega arith, inl (omega arith))
  search_forward-StopsForward (suc n) opos =
      let (below, stops) = search_forward-StopsForward n (opos + 1) in
      elim (Bool-cases (ltb (get_or objs opos 0) pos)) [
        | inl less ↦
            rw less
              (omega (arith, below), elim stops [ inl e ↦ inl (omega (arith, e)) | inr g ↦ inr g ])
        | inr there ↦ rw there (omega arith, inr (ground (arith, there)))
      ]

  -- And the second, behind which every entry is too large.
  record StopsBackward (from b : ℕ) : Type 0 where
    below : b ≤ from
    stops : (b ≡ 0) ⊎ (get_or objs b 0 ≤ pos)
    passed : (k : ℕ) → b < k → k ≤ from → pos < get_or objs k 0

  search_backward-StopsBackward : (from : ℕ) → StopsBackward from (search_backward objs pos from)
  unfolding search_backward
  search_backward-StopsBackward zero = record {
    below = omega arith;
    stops = inl refl;
    passed = λ k l u. absurd (omega arith);
  }
  search_backward-StopsBackward (suc from) =
      let ih = search_backward-StopsBackward from in
      elim (Bool-cases (ltb pos (get_or objs (suc from) 0))) [
        | inl more ↦ rw more (record {
          below = omega (arith, ih.below);
          stops = ih.stops;
          passed = λ k l u. here_or_on k l u more (ih.passed k);
        })
        | inr there ↦ rw there (record {
          below = omega arith;
          stops = inr (ground (arith, there));
          passed = λ k l u. absurd (omega arith);
        })
      ]
    where
      here_or_on :
          (k : ℕ)
          → search_backward objs pos from < k
          → k ≤ suc from
          → ltb pos (get_or objs (suc from) 0) ≡ true
          → (search_backward objs pos from < k → k ≤ from → pos < get_or objs k 0)
          → pos < get_or objs k 0
      here_or_on k l u more on = elim (Bool-cases (k == suc from)) [
        | inl here ↦
            let same : k ≡ suc from = ground (arith, here) in rw same (ground (arith, more))
        | inr other ↦ on l (ground (arith, other))
      ]

  module _ (asc : IsAscending objs) (j : ℕ) (l : j < length objs) (e : get_or objs j 0 ≡ pos) where
    -- The first search does not stop before an entry at the position.
    not_before :
        (f : ℕ) → StopsForward (length objs - 1) f → f < j → ◌≡◌ {A = ℕ} (get_or objs f 0) pos
    not_before f (below, inl at_last) u = absurd (omega (arith, at_last))
    not_before f (below, inr reached) u = absurd (omega (arith, reached, asc f j u l, e))

    -- The second one, from behind it, stops there.
    back_at : (f b : ℕ) → f < length objs → j < f → StopsBackward f b → b ≡ j
    back_at f b in_range u s = elim (Bool-cases (ltb b j)) [
      | inl before ↦
          absurd (omega (arith, s.passed j (ground (arith, before)) (omega (arith, u)), e))
      | inr other ↦ elim (Bool-cases (ltb j b)) [
        | inr not_behind ↦ ground (arith, other, not_behind)
        | inl behind ↦ elim s.stops [
          | inl at_start ↦ absurd (ground (arith, behind, at_start))
          | inr low ↦ absurd (
              omega (
                arith,
                low,
                asc j b (ground (arith, behind)) (omega (arith, s.below, in_range)),
                e,
              ))
        ]
      ]
    ]

  module _ (asc : IsAscending objs) (hint : ℕ) where
    abbrev last : ℕ
    last = length objs - 1

    abbrev fwd : ℕ
    fwd = if ltb hint (length objs) then search_forward objs pos hint (last - hint) else last

    abbrev back : ℕ
    back = search_backward objs pos fwd

    fwd-StopsForward : StopsForward last fwd
    fwd-StopsForward = elim (Bool-cases (ltb hint (length objs))) [
      | inl inside ↦
          let at : hint + (last - hint) ≡ last = ground (arith, inside) in
          rw inside (
            subst (λ n. StopsForward n (search_forward objs pos hint (last - hint))) at
              (search_forward-StopsForward (last - hint) hint))
      | inr outside ↦ rw outside (omega arith, inl refl)
    ]

    -- What is found is an entry at the position.
    pub found_entry :
        (i : ℕ) → find_object objs pos hint ≡ some i → (i < length objs) × (get_or objs i 0 ≡ pos)
    unfolding find_object
    found_entry i h =
        let below = fwd-StopsForward.0 in
        let behind = (search_backward-StopsBackward fwd).below in ground (arith, below, behind)

    -- Each entry at the position is found, whatever the hint.
    pub entry_found :
        (j : ℕ) → j < length objs → get_or objs j 0 ≡ pos → find_object objs pos hint ≡ some j
    unfolding find_object
    entry_found j l e = elim (Bool-cases (ltb fwd j)) [
      | inl before ↦
          let same = not_before asc j l e fwd fwd-StopsForward (ground (arith, before)) in
          absurd (omega (arith, asc fwd j (ground (arith, before)) l, same, e))
      | inr reached ↦ elim (Bool-cases (ltb j fwd)) [
        | inr not_behind ↦
            let here : fwd ≡ j = ground (arith, reached, not_behind) in
            let at : get_or objs fwd 0 ≡ pos = ap (λ i. get_or objs i 0) here ∙ e in
            ground (arith, here, at)
        | inl behind ↦
            let in_range : fwd < length objs = omega (arith, fwd-StopsForward.0, l) in
            let here =
              back_at asc j l e fwd back in_range (ground (arith, behind))
                (search_backward-StopsBackward fwd) in
            let at : get_or objs back 0 ≡ pos = ap (λ i. get_or objs i 0) here ∙ e in
            let more = asc j fwd (ground (arith, behind)) in_range in
            ground (arith, here, at, more, e)
      ]
    ]
