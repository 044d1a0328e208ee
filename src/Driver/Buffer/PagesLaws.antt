-- ===== src/Driver/Buffer/PagesLaws.antt =====
-- What binder_update_page_range of driver/binder.c does to proc->pages, and to nothing else.
use cdroid.Driver.Kernel.{
  >>=-eq-ok, Kernel, ok, no_fault, alloc_page_fails, map_vm_area_fails, vm_insert_page_fails,
  PageFault,
}
use cdroid.Driver.Buffer.{Proc, page_size}
use cdroid.Driver.Buffer.Pages.{
  mapping_vma, put, free_range, unwind, map_range, binder_update_page_range,
}
use cdroid.Prelude.{
  ℕ, zero, suc, ◌+◌, ◌-◌, ◌*◌, ◌/◌, ◌≡◌, refl, Bool, true, false, not, ◌&&◌, ◌||◌, arith, leb,
  if◌then◌else◌, inl, inr, Bool-cases,
}

-- Only the pages change.
pub update-only_pages :
    (k : Kernel) (p : Proc) (allocate : Bool) (start stop : ℕ) (given : Bool) (r : Bool) (q : Proc)
    → binder_update_page_range k p allocate start stop given ≡ ok (r, q)
    → q ≡ record p { pages = q.pages }
unfolding binder_update_page_range
update-only_pages k p allocate start stop given r q h = ground arith

-- Inside the pages first to first + n.
abbrev pub within : ℕ → ℕ → ℕ → Bool
within first n i = leb first i && not (leb (first + n) i)

page_index :
    (base start first n : ℕ)
    → start ≡ base + first * page_size
    → (start + n * page_size - base) / page_size ≡ first + n
page_index base start first n s = omega arith

module _ (base start first : ℕ) (s : start ≡ base + first * page_size) where
  -- free_range takes every page of the range away, and no other.
  pub free_range_lem :
      (n : ℕ) (pages q : ℕ → Bool)
      → free_range base start n pages ≡ ok q
      → (i : ℕ) → q i ≡ (if within first n i then false else pages i)
  unfolding free_range
  free_range_lem zero pages q h i = let e : pages ≡ q = cc in rw (← e) (ground arith)
  free_range_lem (suc n) pages q h i =
      let j = (start + n * page_size - base) / page_size in
      let at = page_index base start first n s in
      elim (Bool-cases (pages j)) [
        | inl there ↦
            ground
              (arith, at, free_range_lem n (put pages j false) q (rw (there, free_range) at h) i)
        | inr gone ↦ absurd (ground arith)
      ]

  -- It does not stop where every page of the range is there.
  pub free_range_ok :
      (n : ℕ) (pages : ℕ → Bool)
      → ((i : ℕ) → within first n i ≡ true → pages i ≡ true)
      → (q : ℕ → Bool) × (free_range base start n pages ≡ ok q)
  unfolding free_range
  free_range_ok zero pages there = (pages, refl)
  free_range_ok (suc n) pages there =
      let j = (start + n * page_size - base) / page_size in
      let at = page_index base start first n s in
      let (q, e) = free_range_ok n (put pages j false) (λ i w. ground (arith, at, there i)) in
      (q, rw (there j (ground arith), free_range) e)

  -- What is left after a failure, at any page of the range.
  abbrev Ends : ℕ → ℕ → (ℕ → Bool) → Bool → (ℕ → Bool) → ℕ → Type 0
  Ends j n pages r q i = q i ≡ (
      if r
      then (if within (first + j) n i then true else pages i)
      else (if within first j i then false else pages i))

  unwound :
      (j : ℕ) (left : ℕ → Bool) (r : Bool) (q : ℕ → Bool)
      → unwind base start j left ≡ ok (r, q)
      → (i : ℕ) → (r ≡ false) × (q i ≡ (if within first j i then false else left i))
  unwound j left r q h i =
      let (t, e, e') = >>=-eq-ok (free_range base start j left) (λ t. ok (false, t)) h in
      let same : t ≡ q = cc in (cc, free_range_lem j left q (rw same at e) i)

  -- map_range either adds the rest of the range to the pages, or takes its beginning away again.
  pub map_range_lem :
      (k : Kernel) (j n : ℕ) (pages q : ℕ → Bool) (r : Bool)
      → map_range k base start j n pages ≡ ok (r, q)
      → (i : ℕ) → Ends j n pages r q i
  unfolding map_range
  map_range_lem k j zero pages q r h i =
      let e : pages ≡ q = cc in let e' : true ≡ r = cc in rw (← e, ← e') (ground arith)
  map_range_lem k j (suc n) pages q r h i =
      let x = (start + j * page_size - base) / page_size in
      let at = page_index base start first j s in
      elim (Bool-cases (pages x)) [
        | inl there ↦ absurd (ground arith)
        | inr gone ↦
            by_fault x at gone (k.fault (start + j * page_size)) (rw (gone, map_range) at h)
              (λ h'. map_range_lem k (suc j) n (put pages x true) q r h' i)
      ]
    where
      by_fault :
          (x : ℕ)
          → x ≡ first + j
          → pages x ≡ false
          → (f : PageFault)
          → elim f [
            | no_fault ↦ map_range k base start (suc j) n (put pages x true)
            | alloc_page_fails ↦ unwind base start j pages
            | map_vm_area_fails ↦ unwind base start j (put (put pages x true) x false)
            | vm_insert_page_fails ↦ unwind base start j (put (put pages x true) x false)
          ]
            ≡ ok (r, q)
          → (map_range k base start (suc j) n (put pages x true) ≡ ok (r, q)
              → Ends (suc j) n (put pages x true) r q i)
          → Ends j (suc n) pages r q i
      by_fault x at gone no_fault h' ih = ground (arith, ih h')
      by_fault x at gone alloc_page_fails h' ih = ground (arith, unwound j pages r q h' i)
      by_fault x at gone map_vm_area_fails h' ih =
          ground (arith, unwound j (put (put pages x true) x false) r q h' i)
      by_fault x at gone vm_insert_page_fails h' ih =
          ground (arith, unwound j (put (put pages x true) x false) r q h' i)

  unwind_ok :
      (j : ℕ) (left : ℕ → Bool)
      → ((i : ℕ) → within first j i ≡ true → left i ≡ true)
      → (r : Bool) × (q : ℕ → Bool) × (unwind base start j left ≡ ok (r, q))
  unwind_ok j left there = let (q, e) = free_range_ok j left there in (false, q, rw e)

  -- It does not stop where no page of the rest is there yet, and the beginning is.
  pub map_range_ok :
      (k : Kernel) (j n : ℕ) (pages : ℕ → Bool)
      → ((i : ℕ) → within (first + j) n i ≡ true → pages i ≡ false)
      → ((i : ℕ) → within first j i ≡ true → pages i ≡ true)
      → (r : Bool) × (q : ℕ → Bool) × (map_range k base start j n pages ≡ ok (r, q))
  unfolding map_range
  map_range_ok k j zero pages gone there = (true, pages, refl)
  map_range_ok k j (suc n) pages gone there =
      let x = (start + j * page_size - base) / page_size in
      let at = page_index base start first j s in
      rw (gone x (ground arith), map_range)
        (by_fault x at (k.fault (start + j * page_size)) (
          map_range_ok k (suc j) n (put pages x true) (λ i w. ground (arith, gone i))
            (λ i w. ground (arith, there i))))
    where
      by_fault :
          (x : ℕ)
          → x ≡ first + j
          → (f : PageFault)
          → (r : Bool) × (q : ℕ → Bool) × (map_range k base start (suc j) n (put pages x true)
              ≡ ok (r, q))
          → (r : Bool) × (q : ℕ → Bool) × (elim f [
            | no_fault ↦ map_range k base start (suc j) n (put pages x true)
            | alloc_page_fails ↦ unwind base start j pages
            | map_vm_area_fails ↦ unwind base start j (put (put pages x true) x false)
            | vm_insert_page_fails ↦ unwind base start j (put (put pages x true) x false)
          ]
              ≡ ok (r, q))
      by_fault x at no_fault ih = ih
      by_fault x at alloc_page_fails ih = unwind_ok j pages there
      by_fault x at map_vm_area_fails ih =
          unwind_ok j (put (put pages x true) x false) (λ i w. ground (arith, there i))
      by_fault x at vm_insert_page_fails ih =
          unwind_ok j (put (put pages x true) x false) (λ i w. ground (arith, there i))

module _ (k : Kernel) (p : Proc) (first count : ℕ) (given : Bool) where
  abbrev start : ℕ
  start = p.buffer + first * page_size

  abbrev stop : ℕ
  stop = p.buffer + (first + count) * page_size

  -- binder_update_page_range, allocating a range of whole pages and returning, is all or nothing:
  -- with 0 exactly the range is mapped in addition, with -ENOMEM every page is as it was, wherever
  -- the failure was.
  pub update_pages_allocate :
      (r : Bool) (q : Proc)
      → binder_update_page_range k p true start stop given ≡ ok (r, q)
      → (i : ℕ) → q.pages i ≡ (if r && within first count i then true else p.pages i)
  unfolding binder_update_page_range
  update_pages_allocate r q h i =
      elim (Bool-cases (leb stop start || not (mapping_vma k p given))) [
        | inl early ↦ ground arith
        | inr go ↦
            let rounds = (stop - start + (page_size - 1)) / page_size in
            let all : rounds ≡ count = omega arith in
            let (t, e, e') =
              >>=-eq-ok {B = Bool × Proc} (map_range k p.buffer start 0 rounds p.pages)
                (λ t. ok (t.0, record p { pages = t.1 })) {b = (r, q)} (ground arith) in
            ground
              (arith, all, map_range_lem p.buffer start first refl k 0 rounds p.pages t.1 t.0 e i)
      ]

  -- binder_update_page_range, freeing a range of whole pages and returning, takes away exactly the
  -- pages of the range.
  pub update_pages_free :
      (r : Bool) (q : Proc)
      → binder_update_page_range k p false start stop given ≡ ok (r, q)
      → (i : ℕ) → q.pages i ≡ (if within first count i then false else p.pages i)
  unfolding binder_update_page_range
  update_pages_free r q h i = elim (Bool-cases (leb stop start)) [
    | inl early ↦ ground arith
    | inr go ↦
        let rounds = (stop - start) / page_size in
        let all : rounds ≡ count = omega arith in
        let (t, e, e') =
          >>=-eq-ok {B = Bool × Proc} (free_range p.buffer start rounds p.pages)
            (λ t. ok (false, record p { pages = t })) {b = (r, q)} (ground arith) in
        ground (arith, all, free_range_lem p.buffer start first refl rounds p.pages t e i)
  ]
