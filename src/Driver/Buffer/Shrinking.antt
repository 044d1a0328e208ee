-- ===== src/Driver/Buffer/Shrinking.antt =====
-- The pages of the area of driver/binder.c behind the freeing of some of them.
use cdroid.Driver.Buffer.Tiling.{Tiles}
use cdroid.Driver.Buffer.Pages.{binder_update_page_range}
use cdroid.Driver.Buffer.PagesLaws.{free_range_ok, update_pages_free, within}
use cdroid.Driver.Buffer.Paged.{PagedAt, EachNext, EachNext-append, EachNext-mono, page_at, extent}
use cdroid.Driver.Buffer.{Buffer, Proc, List, next_addr, ok, page_size, sizeof_buffer}
use cdroid.Driver.Kernel.{Kernel}
use cdroid.Prelude.{
  ◌∙◌, ℕ, ◌≡◌, ◌≤◌, ◌<◌, ◌+◌, ◌*◌, ◌-◌, ◌/◌, ◌%◌, ◌&&◌, ◌⊎◌, ◌∷◌, ◌++◌, Bool, Bool-cases, false,
  true, leb, inl, inr, arith, if◌then◌else◌, refl,
}

-- The page lies in the range.
abbrev pub whole_in : ℕ → ℕ → ℕ → Bool
whole_in start stop page = leb start page && leb (page + 4096) stop

free_early :
    (k : Kernel) (p : Proc) (start stop : ℕ)
    → leb stop start ≡ true
    → binder_update_page_range k p false start stop false ≡ ok (true, p)
unfolding binder_update_page_range
free_early k p start stop h = rw h refl

module _ (k : Kernel) (p : Proc) where
  -- A range of pages that are there is freed without a BUG.
  free_range_of_ok :
      (first count : ℕ)
      → ((i : ℕ) → within first count i ≡ true → p.pages i ≡ true)
      → (r : Bool) × (q : Proc) × (binder_update_page_range k p false
            (p.buffer + first * page_size)
            (p.buffer + (first + count) * page_size)
            false
          ≡ ok (r, q))
  unfolding binder_update_page_range
  free_range_of_ok first count there =
      let start = p.buffer + first * page_size in
      let stop = p.buffer + (first + count) * page_size in
      elim (Bool-cases (leb stop start)) [
        | inl early ↦ (true, p, rw early refl)
        | inr go ↦
            let rounds = (stop - start) / page_size in
            let all : rounds ≡ count = omega arith in
            let (pages, e) =
              free_range_ok p.buffer start first refl rounds p.pages
                (λ i w. there i (ground (arith, all))) in
            (false, record p { pages = pages }, rw (go, e) refl)
      ]

  at_ends :
      (first count start stop : ℕ)
      → start ≡ p.buffer + first * page_size
      → stop ≡ p.buffer + (first + count) * page_size
      → (r : Bool) (q : Proc)
      → binder_update_page_range k p false
          (p.buffer + first * page_size)
          (p.buffer + (first + count) * page_size)
          false
        ≡ ok (r, q)
      → binder_update_page_range k p false start stop false ≡ ok (r, q)
  at_ends first count start stop s t r q e = rw (s, t) e

  pub free_ok :
      (start stop : ℕ)
      → p.buffer % 4096 ≡ 0
      → start % 4096 ≡ 0
      → stop % 4096 ≡ 0
      → p.buffer ≤ start
      → ((i : ℕ) → start ≤ page_at p.buffer i → page_at p.buffer i + 4096 ≤ stop → p.pages i ≡ true)
      → (r : Bool) × (q : Proc) × (binder_update_page_range k p false start stop false ≡ ok (r, q))
        × ((i : ℕ)
            → q.pages i ≡ (if whole_in start stop (page_at p.buffer i) then false else p.pages i))
  free_ok start stop aligned from to low there = elim (Bool-cases (leb stop start)) [
    | inl early ↦ (true, p, free_early k p start stop early, λ i. ground arith)
    | inr go ↦
        let first = (start - p.buffer) / 4096 in
        let count = (stop - start) / 4096 in
        let start_is : start ≡ p.buffer + first * page_size = omega (arith, aligned, from, low) in
        let stop_is : stop ≡ p.buffer + (first + count) * page_size =
          ground (arith, aligned, from, low, to) in
        let (r, q, e) =
          free_range_of_ok first count
            (λ i w. there i (ground (arith, start_is)) (ground (arith, stop_is))) in
        (
          r,
          q,
          at_ends first count start stop start_is stop_is r q e,
          λ i.
              (let h = update_pages_free k p first count false r q e i in
                ground (arith, h, start_is, stop_is)),
        )
  ]

-- Pages between `lo` and `hi` are taken away.
module _ (base lo hi : ℕ) (pages after : ℕ → Bool)
    (shrunk : (i : ℕ)
      → (after i ≡ pages i)
        ⊎ ((after i ≡ false) × (lo ≤ page_at base i) × (page_at base i + 4096 ≤ hi))) where
  -- A buffer that ends before them or begins behind them keeps its own.
  pub shrunk_at :
      (c : Buffer) (n : ℕ)
      → (n ≤ lo) ⊎ (hi ≤ c.addr)
      → c.addr + sizeof_buffer ≤ n
      → PagedAt base pages c n
      → PagedAt base after c n
  shrunk_at c n far large h = (
    λ i f l u. elim (shrunk i) [ inl e ↦ e ∙ h.0 i f l u | inr e ↦ e.0 ],
    λ i l u. elim (shrunk i) [
      | inl e ↦ e ∙ h.1 i l u
      | inr (e, from, to) ↦ absurd (outside c n (page_at base i) far large from to l u)
    ],
  )
    where
      outside :
          (c : Buffer) (n page : ℕ)
          → (n ≤ lo) ⊎ (hi ≤ c.addr)
          → c.addr + sizeof_buffer ≤ n
          → lo ≤ page
          → page + 4096 ≤ hi
          → c.addr < page + 4096
          → page < extent c n
          → ⊥
      outside c n page (inl f) large from to l u = ground arith
      outside c n page (inr f) large from to l u = omega arith

  pub shrunk_around :
      (stop : ℕ) (pre post : List Buffer) (x : Buffer)
      → hi ≡ next_addr stop post
      → x.addr ≤ lo
      → Tiles base x.addr pre
      → Tiles (next_addr stop post) stop post
      → EachNext (PagedAt base pages) x.addr pre
      → EachNext (PagedAt base pages) stop post
      → PagedAt base after x hi
      → EachNext (PagedAt base after) stop (pre ++ x ∷ post)
  shrunk_around stop pre post x e low left right before behind here =
      EachNext-append (PagedAt base after) stop pre (x ∷ post)
        (EachNext-mono (PagedAt base pages) x.addr (PagedAt base after) base pre left
          (λ c n l m u. shrunk_at c n (inl (omega (arith, u, low))) m) before)
        (
          rw (← e) here,
          EachNext-mono (PagedAt base pages) stop (PagedAt base after) (next_addr stop post) post
              right (λ c n l m u. shrunk_at c n (inr (omega (arith, e, l))) m) behind,
        )
