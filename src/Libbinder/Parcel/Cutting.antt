-- ===== src/Libbinder/Parcel/Cutting.antt =====
-- The objects that continueWrite of src/lib/binder/Parcel.cpp keeps and releases.
use cdroid.Libbinder.Parcel.Growth.{trim, drop_objects, is_fd}
use cdroid.Libbinder.Parcel.{
  Parcel, done, object_size, object_at, FlatBinderObject, release_object, RefCall,
}
use cdroid.Memory.{read32}
use cdroid.Prelude.{
  ℕ, ◌≡◌, ◌≤◌, ◌<◌, ◌+◌, ◌&&◌, not, inl, inr, Bool, Bool-cases, true, arith, refl, ltb, leb,
  if◌then◌else◌, ap, subst, List, [], ◌∷◌, ◌++◌, length, All, drop,
}

abbrev pub IsOrdered : List ℕ → Type 0
IsOrdered [] = Unit {0}
IsOrdered (o ∷ os) = All (λ x. o < x) os × IsOrdered os

-- The objects before the new end, and those from there on.
pub record Cut (desired : ℕ) (os kept : List ℕ) : Type 0 where
  pub dropped : List ℕ
  pub whole : os ≡ kept ++ dropped
  pub before : All (λ o. o < desired) kept
  pub behind : All (λ o. desired ≤ o) dropped

pub trim-Cut : (desired : ℕ) (os : List ℕ) → IsOrdered os → Cut desired os (trim desired os)
unfolding trim
trim-Cut desired [] v = record { dropped = []; whole = refl; before = tt; behind = tt }
trim-Cut desired (o ∷ os) v = by_rest (trim desired os) (trim-Cut desired os v.1)
  where
    by_rest :
        (rest : List ℕ)
        → Cut desired os rest
        → Cut desired
            (o ∷ os)
            (elim rest [ [] ↦ if ltb o desired then o ∷ [] else [] | x ∷ xs ↦ o ∷ x ∷ xs ])
    by_rest [] c = elim (Bool-cases (ltb o desired)) [
      | inl low ↦ rw low (record {
        dropped = c.dropped;
        whole = ap (◌∷◌ o) c.whole;
        before = (ground (arith, low), tt);
        behind = c.behind;
      })
      | inr high ↦ rw high (record {
        dropped = o ∷ c.dropped;
        whole = ap (◌∷◌ o) c.whole;
        before = tt;
        behind = (ground (arith, high), c.behind);
      })
    ]
    by_rest (x ∷ xs) c =
        let next = subst (All (λ x. o < x)) c.whole v.0 in
        record {
          dropped = c.dropped;
          whole = ap (◌∷◌ o) c.whole;
          before = (omega (arith, next.0, c.before.0), c.before);
          behind = c.behind;
        }

pub drop-append : (xs ys : List ℕ) → drop (length xs) (xs ++ ys) ≡ ys
drop-append [] ys = refl
drop-append (x ∷ xs) ys = drop-append xs ys

-- The object that lies at an offset.
abbrev pub flat_of : (ℕ → ℕ) → ℕ → FlatBinderObject
flat_of bytes o = record {
  type = read32 bytes o;
  flags = read32 bytes (o + 4);
  binder = read32 bytes (o + 8);
  cookie = read32 bytes (o + 12);
}

-- The calls for objects that are dropped, one after the other.
abbrev pub releases : (ℕ → ℕ) → List ℕ → List RefCall → List RefCall
releases bytes [] refs = refs
releases bytes (o ∷ os) refs = releases bytes os (release_object (flat_of bytes o) ∷ refs)

abbrev pub no_fds : (ℕ → ℕ) → List ℕ → Bool → Bool
no_fds bytes [] known = known
no_fds bytes (o ∷ os) known = no_fds bytes os (known && not (is_fd (flat_of bytes o)))

pub drop_objects_is :
    (os : List ℕ) (p : Parcel)
    → All (λ o. o + object_size ≤ p.data_capacity) os
    → drop_objects p os
      ≡ done (record p {
        fds_known = no_fds p.bytes os p.fds_known;
        refs = releases p.bytes os p.refs;
      })
unfolding drop_objects object_at
drop_objects_is [] p v = refl
drop_objects_is (o ∷ os) p v =
    let fits : leb (o + object_size) p.data_capacity ≡ true = ground (arith, v.0) in
    rw fits (
      drop_objects_is os
        (record p {
          fds_known = p.fds_known && not (is_fd (flat_of p.bytes o));
          refs = release_object (flat_of p.bytes o) ∷ p.refs;
        })
        v.1)

-- A list of no length.
pub no_length : (xs : List ℕ) → length xs ≡ 0 → xs ≡ []
no_length [] e = refl
no_length (x ∷ xs) e = absurd (omega arith)
