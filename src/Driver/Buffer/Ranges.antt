-- ===== src/Driver/Buffer/Ranges.antt =====
-- The ranges of pages that binder_alloc_buf of driver/binder.c maps.
use cdroid.Driver.Buffer.Pages.{binder_update_page_range}
use cdroid.Driver.Buffer.PagesLaws.{update_pages_allocate, within}
use cdroid.Driver.Buffer.Paged.{update_range_ok}
use cdroid.Driver.Buffer.{false, ok, true, page_size, Proc, page_align}
use cdroid.Driver.Kernel.{Kernel}
use cdroid.Prelude.{
  leb, Bool-cases, ◌&&◌, ◌⊎◌, arith, Bool, ℕ, if◌then◌else◌, ◌≡◌, ◌≤◌, ◌+◌, ◌*◌, ◌%◌, ◌-◌, ◌/◌,
  refl, inl, inr,
}

-- The page numbers of a range of pages in the area, from behind `a` to `stop`.
abbrev pub first_page : ℕ → ℕ → ℕ
first_page base a = (page_align a - base) / 4096

abbrev pub page_count : ℕ → ℕ → ℕ
page_count a stop = (stop - page_align a) / 4096

module _ (base a stop : ℕ) (aligned : base % 4096 ≡ 0) (low : base ≤ a) where
  pub start_is : page_align a ≡ base + first_page base a * page_size
  start_is = omega (arith, aligned, low)

  pub stop_is :
      stop % 4096 ≡ 0
      → page_align a ≤ stop
      → stop ≡ base + (first_page base a + page_count a stop) * page_size
  stop_is whole above = omega (arith, aligned, low, whole, above)

  pub inside :
      (i : ℕ)
      → stop % 4096 ≡ 0
      → within (first_page base a) (page_count a stop) i ≡ true
      → (a ≤ base + i * 4096) × (base + i * 4096 + 4096 ≤ stop)
  inside i whole h = (ground (arith, aligned, low, whole), ground (arith, aligned, low, whole))

  pub covered :
      (i : ℕ)
      → stop % 4096 ≡ 0
      → a ≤ base + i * 4096
      → base + i * 4096 + 4096 ≤ stop
      → within (first_page base a) (page_count a stop) i ≡ true
  covered i whole h k = ground (arith, aligned, low, whole)

  -- A page behind the range, or before it, is not in it.
  pub outside :
      (i : ℕ)
      → stop % 4096 ≡ 0
      → (base + i * 4096 + 4096 ≤ a) ⊎ (stop ≤ base + i * 4096)
      → within (first_page base a) (page_count a stop) i ≡ false
  outside i whole (inl h) = ground (arith, aligned, low, whole)
  outside i whole (inr h) = ground (arith, aligned, low, whole)

update_early :
    (k : Kernel) (p : Proc) (start stop : ℕ)
    → leb stop start ≡ true
    → binder_update_page_range k p true start stop false ≡ ok (true, p)
unfolding binder_update_page_range
update_early k p start stop h = rw h refl

-- The mapping of a range over pages that are not there, and what it does to them.
pub update_ok :
    (k : Kernel) (p : Proc) (a stop : ℕ) (aligned : p.buffer % 4096 ≡ 0) (low : p.buffer ≤ a)
    → stop % 4096 ≡ 0
    → ((i : ℕ) → within (first_page p.buffer a) (page_count a stop) i ≡ true → p.pages i ≡ false)
    → (r : Bool) × (q : Proc) × (binder_update_page_range k p true (page_align a) stop false
        ≡ ok (r, q))
      × ((i : ℕ)
          → q.pages i ≡ (
              if r && within (first_page p.buffer a) (page_count a stop) i
              then true
              else p.pages i))
update_ok k p a stop aligned low whole gone = elim (Bool-cases (leb stop (page_align a))) [
  | inl early ↦ (true, p, update_early k p (page_align a) stop early, λ i. ground arith)
  | inr go ↦
      let first = first_page p.buffer a in
      let count = page_count a stop in
      let (r, q, e) = update_range_ok k p first count gone in
      let start_is' = start_is p.buffer a stop aligned low in
      let stop_is' = stop_is p.buffer a stop aligned low whole (ground arith) in
      (r, q, rw (start_is', stop_is') e, update_pages_allocate k p first count false r q e)
]
