-- ===== src/Driver/Buffer/Freeing.antt =====
-- binder_free_buf of driver/binder.c reaches no BUG for a buffer in use, and keeps the pages that
-- the buffers need.
use cdroid.Driver.Buffer.Space.{freed_space_lem, free_at-async, given_back}
use cdroid.Driver.Buffer.Joining.{merging_ok}
use cdroid.Driver.Buffer.Pages.{binder_update_page_range}
use cdroid.Driver.Buffer.PagesLaws.{update-only_pages}
use cdroid.Driver.Buffer.Shrinking.{shrunk_around, whole_in, free_ok}
use cdroid.Driver.Buffer.Valid.{Fits, Fits-append_right, IsValid}
use cdroid.Driver.Buffer.Pending.{Pending}
use cdroid.Driver.Buffer.FreeLaws.{freed-used, released, free_at_lem, merging}
use cdroid.Driver.Buffer.Paged.{
  EachNext-append_left, page_at, EachNext-append_right, PagedAt, EachNext, IsPaged,
}
use cdroid.Driver.Buffer.Free.{
  freed_size, release_buffer, binder_free_buf, free_at, freed_space, freeable,
}
use cdroid.Driver.Buffer.Tiling.{
  set_buffer-middle, size_in-middle, Tiles-le, in_use, Tiles-append_right, Tiles-append_left,
  Absent, Tiles, get_buffer-middle, Tiles-Absent,
}
use cdroid.Driver.Buffer.{
  set_buffer, size_in, sizeof_buffer, next_addr, page_mask, page_align, Buffer, Proc, List, ok,
  area_end, binder_buffer_size, get_buffer,
}
use cdroid.Driver.Kernel.{Kernel}
use cdroid.Driver.Rbtree.{Rb}
use cdroid.Prelude.{
  ◌≤◌, ◌⊎◌, sym, arith, ◌+◌, subst, if◌then◌else◌, Bool, ◌-◌, false, ℕ, ◌≡◌, ◌∷◌, ◌++◌, Bool-cases,
  true, inl, inr, refl, none, ap, ◌∙◌,
}

module _ (k : Kernel) (rb : Rb) (p : Proc) (pre post : List Buffer) (b : Buffer) (v : IsValid p)
    (w : IsPaged p) (listed : p.buffers ≡ pre ++ b ∷ post) (busy : b.free ≡ false) where
  abbrev behind : ℕ
  behind = next_addr (area_end p) post

  -- The range that is freed.
  abbrev from : ℕ
  from = page_align (b.addr + sizeof_buffer)

  abbrev to : ℕ
  to = page_mask (b.addr + sizeof_buffer + binder_buffer_size p b.addr)

  tiles : Tiles p.buffer (area_end p) (pre ++ b ∷ post)
  tiles = subst (Tiles p.buffer (area_end p)) listed v.tiles

  here : Tiles b.addr (area_end p) (b ∷ post)
  here = Tiles-append_right (area_end p) p.buffer pre (b ∷ post) tiles

  before : Tiles p.buffer b.addr pre
  before = Tiles-append_left (area_end p) p.buffer pre (b ∷ post) tiles

  absent : Absent b.addr pre
  absent = (Tiles-Absent b post p.buffer (area_end p) pre tiles).0

  size_is : binder_buffer_size p b.addr ≡ behind - (b.addr + sizeof_buffer)
  unfolding binder_buffer_size
  size_is = ap (size_in (area_end p) b.addr) listed ∙ size_in-middle b post (area_end p) pre absent

  paged : EachNext (PagedAt p.buffer p.pages) (area_end p) (pre ++ b ∷ post)
  paged = subst (EachNext (PagedAt p.buffer p.pages) (area_end p)) listed w.paged

  paged_here : EachNext (PagedAt p.buffer p.pages) (area_end p) (b ∷ post)
  paged_here = EachNext-append_right (PagedAt p.buffer p.pages) (area_end p) pre (b ∷ post) paged

  to_is : to ≡ page_mask behind
  to_is = ground (arith, size_is, here.1)

  passes : b.transaction ≡ none → freeable p b (freed_size b) ≡ true
  passes idle =
      let fits =
        Fits-append_right (area_end p) pre (b ∷ post) (subst (Fits (area_end p)) listed v.fits) in
      let low = Tiles-le b.addr p.buffer pre before in
      let high = Tiles-le (area_end p) behind post here.2 in
      let (inside, d, o) = fits.0 busy in
      let less = freed-used b d o in
      rw (idle, busy) (ground (arith, inside, less, size_is, low, high, here.1))

  released-IsPaged :
      (q : Proc)
      → q ≡ record p { free_async_space = freed_space p b; pages = q.pages }
      → ((i : ℕ) → q.pages i ≡ (if whole_in from to (page_at p.buffer i) then false else p.pages i))
      → IsPaged (release_buffer rb q b.addr)
  released-IsPaged q only pages =
      subst (λ (x : Proc). IsPaged (release_buffer rb x b.addr)) (sym only)
        (record {
          aligned = w.aligned;
          whole = w.whole;
          paged =
              subst (EachNext (PagedAt p.buffer q.pages) (area_end p))
                (sym (
                  ap (set_buffer b.addr (λ b. record b { free = true })) listed
                  ∙ set_buffer-middle b post (λ b. record b { free = true }) pre absent))
                (shrunk_around p.buffer (b.addr + sizeof_buffer) behind p.pages q.pages shrunk
                  (area_end p) pre post (record b { free = true }) refl (omega arith) before here.2
                  (EachNext-append_left (PagedAt p.buffer p.pages) (area_end p) pre (b ∷ post)
                    paged)
                  paged_here.1
                  (
                    λ i f l u. ground (arith, pages i, to_is, w.aligned),
                    λ i l u.
                        ground (arith, pages i, paged_here.0.1 i l (ground (arith, busy, here.1))),
                  ));
        })
    where
      shrunk :
          (i : ℕ)
          → (q.pages i ≡ p.pages i)
            ⊎ ((q.pages i ≡ false)
                × (b.addr + sizeof_buffer ≤ page_at p.buffer i)
                × (page_at p.buffer i + 4096 ≤ behind))
      shrunk i = elim (Bool-cases (whole_in from to (page_at p.buffer i))) [
        | inr stays ↦ inl (ground (arith, pages i))
        | inl g ↦ inr (ground (arith, pages i), ground arith, ground (arith, to_is))
      ]

  free_at_is :
      (r : Bool) (p1 q : Proc)
      → freeable p b (freed_size b) ≡ true
      → binder_update_page_range k
          (record p { free_async_space = freed_space p b })
          false
          from
          to
          false
        ≡ ok (r, p1)
      → merging k rb b.addr (release_buffer rb p1 b.addr) ≡ ok q
      → free_at k rb p b ≡ ok q
  unfolding free_at
  free_at_is r p1 q fine u m = rw (fine, u) m

  free_at_ok : b.transaction ≡ none → (q : Proc) × (free_at k rb p b ≡ ok q) × IsPaged q
  free_at_ok idle =
      let p0 = record p { free_async_space = freed_space p b } in
      let (r, p1, u, pages) =
        free_ok k p0 from to w.aligned (ground arith) (ground arith)
          (omega (arith, Tiles-le b.addr p.buffer pre before))
          (λ i l u. paged_here.0.1 i (omega arith) (ground (arith, busy, u, to_is))) in
      let only = update-only_pages k p0 false from to false r p1 u in
      let freed = record b { free = true } in
      let pending =
        subst
          (λ (x : Proc).
            Pending (in_use pre ++ in_use post) (release_buffer rb x b.addr) pre freed post)
          (sym only) (released rb p p1.pages pre post b v listed busy) in
      let (q, m, w') =
        merging_ok k rb (in_use pre ++ in_use post) (release_buffer rb p1 b.addr) pre post freed
          pending (released-IsPaged p1 only pages) in
      (q, free_at_is r p1 q (passes idle) u m, w')

  -- binder_free_buf, for a buffer in use without a transaction, on valid buffers, with the area
  -- made of whole pages that start at a page, where each page is there that a header or a buffer
  -- in use lies on, and none that lies between the header of a free buffer and the next header,
  -- always returns and reaches no BUG, and leaves buffers and pages of which the same holds. The
  -- buffers in use behind the call are the others, in the same order. The asynchronous space is
  -- greater by the header and the two sizes, aligned to 4 bytes, if the buffer was asynchronous,
  -- and is as it was otherwise.
  pub binder_free_buf-returns :
      b.transaction ≡ none
      → (q : Proc) × (binder_free_buf k rb p b.addr ≡ ok q)
        × IsValid q
        × IsPaged q
        × (in_use q.buffers ≡ in_use pre ++ in_use post)
        × (q.free_async_space
            ≡ p.free_async_space + (if b.async_transaction then given_back b else 0))
  unfolding binder_free_buf
  binder_free_buf-returns idle =
      let found = ap (get_buffer b.addr) listed ∙ get_buffer-middle b post pre absent in
      let (q, e, w') = free_at_ok idle in
      let (taken, valid, users) = free_at_lem k rb p q pre post b v listed e in
      (
        q,
        rw (found, binder_free_buf) e,
        valid,
        w',
        users,
        free_at-async k rb p q b e ∙ freed_space_lem p pre post b v listed busy,
      )
