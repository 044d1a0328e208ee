-- ===== src/Driver/Buffer/Returning.antt =====
-- binder_alloc_buf of driver/binder.c returns, and keeps the pages there that the buffers need.
use cdroid.Driver.Buffer.Taken.{Granted}
use cdroid.Driver.Buffer.Tiling.{addrs-split}
use cdroid.Driver.Buffer.Fit.{best_fit_from}
use cdroid.Driver.Buffer.AllocLaws.{free_walk, binder_alloc_buf-IsValid, Outcome, taken_here}
use cdroid.Driver.Buffer.Granting.{RestIs, Allocated}
use cdroid.Driver.Buffer.PagedTaking.{stop_at}
use cdroid.Driver.Buffer.PagesLaws.{update-only_pages, within}
use cdroid.Driver.Buffer.Alloc.{
  binder_alloc_buf, best_fit, alloc_at, kept_size, take_buffer, request_size,
}
use cdroid.Driver.Buffer.Paged.{EachNext-mono, PagedAt, take_buffer-only, IsPaged}
use cdroid.Driver.Buffer.Valid.{IsValid}
use cdroid.Driver.Buffer.{
  false, page_align, binder_buffer_size, Buffer, List, sizeof_buffer, area_end, Option, Result,
  true, Bool, ℕ, Rb, Proc,
}
use cdroid.Driver.Kernel.{◌>>=◌, ok, Kernel}
use cdroid.Driver.Buffer.PagedTaking
use cdroid.Driver.Buffer.Ranges.{first_page, page_count, update_ok}
use cdroid.Prelude.{
  Option-cases, inr, ltb, arith, ◌||◌, inl, Bool-cases, not, leb, ◌^◌, if◌then◌else◌, ◌++◌, ◌∷◌,
  ◌≡◌, ◌≤◌, ◌+◌, ◌%◌, refl, none, some, ◌∙◌, sym, subst, ap, ◌&&◌,
}

pub pages-IsPaged :
    (p q : Proc)
    → q ≡ record p { pages = q.pages }
    → ((i : ℕ) → q.pages i ≡ p.pages i)
    → IsValid p
    → IsPaged p
    → IsPaged q
pages-IsPaged p q only same v w = subst IsPaged (sym only) (record {
  aligned = w.aligned;
  whole = w.whole;
  paged =
      EachNext-mono (PagedAt p.buffer p.pages) (area_end p) (PagedAt p.buffer q.pages) p.buffer
        p.buffers v.tiles
        (λ b n l m u h. (λ i f x y. same i ∙ h.0 i f x y, λ i x y. same i ∙ h.1 i x y)) w.paged;
})

module _ (k : Kernel) (rb : Rb) (p : Proc) (data_size offsets_size : ℕ) (is_async : Bool)
    (v : IsValid p) (w : IsPaged p) where
  abbrev asked : ℕ
  asked = request_size data_size offsets_size

  abbrev Returns : Result (Option ℕ × Proc) → Type 0
  Returns result = (r : Option ℕ) × (q : Proc) × (result ≡ ok (r, q)) × IsPaged q

  module _ (granted : Granted p data_size offsets_size is_async) (pre post : List Buffer)
      (b : Buffer) (exact : Bool) (at : p.buffers ≡ pre ++ b ∷ post) (was_free : b.free ≡ true)
      (large : asked ≤ binder_buffer_size p b.addr)
      (exact_is : exact ≡ leb (binder_buffer_size p b.addr) asked) where
    abbrev in_range : ℕ → ℕ → Bool
    in_range x i =
        within (first_page p.buffer (x + sizeof_buffer))
          (page_count (x + sizeof_buffer) (stop_at p asked exact x)) i

    behind_take :
        (p1 q : Proc)
        → p1 ≡ record p { pages = p1.pages }
        → ((i : ℕ) → p1.pages i ≡ (if in_range b.addr i then true else p.pages i))
        → take_buffer rb p1 b.addr
            (kept_size (binder_buffer_size p b.addr) asked exact)
            asked
            data_size
            offsets_size
            is_async
          ≡ ok q
        → Allocated p q b.addr data_size offsets_size is_async
        → IsPaged q
    behind_take p1 q only pages took what =
        let (same_pages, same_base, same_size) =
          take_buffer-only rb p1 q b.addr (kept_size (binder_buffer_size p b.addr) asked exact)
            asked data_size offsets_size is_async took in
        let base : q.buffer ≡ p.buffer = same_base ∙ ap (λ (x : Proc). x.buffer) only in
        let size : q.buffer_size ≡ p.buffer_size =
          same_size ∙ ap (λ (x : Proc). x.buffer_size) only in
        PagedTaking.after_take k rb p data_size offsets_size is_async v w what.pre what.post
          what.found exact what.before what.was_free
          (subst (λ x. asked ≤ binder_buffer_size p x) what.at large) q
          (subst (λ x. exact ≡ leb (binder_buffer_size p x) asked) what.at exact_is) base size
          (subst (λ x. (i : ℕ) → q.pages i ≡ (if in_range x i then true else p.pages i)) what.at
            (λ i. ap (λ f. f i) same_pages ∙ pages i))
          what.rest what.after
          (subst (λ x. RestIs p x asked what.post what.rest) what.at what.rest_is)

    -- With a fit found the allocation returns, with or without memory for the pages.
    fit-Returns : Returns (alloc_at k rb p (b.addr, exact) asked data_size offsets_size is_async)
    unfolding alloc_at
    fit-Returns =
        let stop_aligned =
          PagedTaking.stop_aligned k rb p data_size offsets_size is_async v w pre post b exact at
            was_free large in
        let low =
          PagedTaking.start_low k rb p data_size offsets_size is_async v w pre post b exact at
            was_free large in
        let gone =
          PagedTaking.gone k rb p data_size offsets_size is_async v w pre post b exact at was_free
            large in
        let (r, p1, e, pages) =
          update_ok k p (b.addr + sizeof_buffer) (stop_at p asked exact b.addr) w.aligned low
            stop_aligned gone in
        let only =
          update-only_pages k p true (page_align (b.addr + sizeof_buffer))
            (stop_at p asked exact b.addr) false r p1 e in
        rw e (by_memory r p1 only pages)
      where
        by_memory :
            (r : Bool) (p1 : Proc)
            → p1 ≡ record p { pages = p1.pages }
            → ((i : ℕ) → p1.pages i ≡ (if r && in_range b.addr i then true else p.pages i))
            → Returns (
                if not r
                then ok (none, p1)
                else (take_buffer rb p1 b.addr
                      (kept_size (binder_buffer_size p b.addr) asked exact)
                      asked
                      data_size
                      offsets_size
                      is_async
                    >>= λ q. ok (some b.addr, q)))
        by_memory false p1 only pages = (none, p1, refl, pages-IsPaged p p1 only pages v w)
        by_memory true p1 only pages =
            let (q, took, valid, what) =
              taken_here k rb p data_size offsets_size is_async v granted pre post b p1 exact at
                was_free only large exact_is in
            (some b.addr, q, rw took refl, behind_take p1 q only pages took what)

  chosen-Returns :
      (a : ℕ) (exact : Bool)
      → Granted p data_size offsets_size is_async
      → best_fit (binder_buffer_size p) asked none p.free_buffers ≡ some (a, exact)
      → Returns (alloc_at k rb p (a, exact) asked data_size offsets_size is_async)
  chosen-Returns a exact granted f = elim (best_fit_from _ _ p.free_buffers none a exact f) [
    | inl n ↦ absurd (ground arith)
    | inr (c, large, e) ↦
        let (pre, b, post, at, same, was_free) =
          addrs-split a true p.buffers (omega (arith, c, v.free_tree.nodes a)) in
        subst (λ x. Returns (alloc_at k rb p (x, exact) asked data_size offsets_size is_async))
          (sym same)
          (fit-Returns granted pre post b exact at was_free (rw same at large) (rw same at e))
  ]

  binder_alloc_buf-IsPaged :
      (r : Option ℕ) × (q : Proc) × (binder_alloc_buf k rb p data_size offsets_size is_async
        ≡ ok (r, q))
      × IsPaged q
  unfolding binder_alloc_buf
  binder_alloc_buf-IsPaged =
      let walk = free_walk rb p v asked in
      elim (Bool-cases (not p.vma || (ltb asked data_size || ltb asked offsets_size))) [
        | inl bad ↦ (none, p, ground arith, w)
        | inr fine ↦
            elim (Bool-cases
              (is_async && ltb p.free_async_space ((asked + sizeof_buffer) % 2 ^ 64))) [
                | inl full ↦ (none, p, ground arith, w)
                | inr granted ↦
                    elim (Option-cases
                      (best_fit (binder_buffer_size p) asked none p.free_buffers)) [
                        | inl e ↦ (none, p, ground arith, w)
                        | inr ((a, exact), e) ↦
                            let (r, q, e', s) =
                              chosen-Returns a exact (λ y. ground arith, ground arith, ground arith)
                                e in
                            (r, q, ground arith, s)
                      ]
              ]
      ]

  -- binder_alloc_buf, on valid buffers, with the area made of whole pages that start at a page,
  -- where each page is there that a header or a buffer in use lies on, and none that lies between
  -- the header of a free buffer and the next header, always returns and reaches no BUG, and leaves
  -- buffers and pages of which the same holds. A null result has changed nothing but the pages;
  -- otherwise the result is the address of a buffer that was free and large enough and is now
  -- taken for the transaction with the sizes asked for, and an asynchronous one has taken the sum
  -- of its sizes, aligned to 8 bytes, and its header of the asynchronous space.
  pub binder_alloc_buf-returns :
      (r : Option ℕ) × (q : Proc) × (binder_alloc_buf k rb p data_size offsets_size is_async
        ≡ ok (r, q))
      × IsValid q
      × IsPaged q
      × Outcome p r q data_size offsets_size is_async
  binder_alloc_buf-returns =
      let (r, q, e, s) = binder_alloc_buf-IsPaged in
      let (valid, what) = binder_alloc_buf-IsValid k rb p data_size offsets_size is_async v r q e in
      (r, q, e, valid, s, what)
