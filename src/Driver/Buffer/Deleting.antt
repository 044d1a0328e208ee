-- ===== src/Driver/Buffer/Deleting.antt =====
-- binder_delete_free_buffer of driver/binder.c between two free buffers: which pages it frees.
use cdroid.Driver.Buffer.HeaderPages.{
  frees_start_lem, frees_end_lem, from_page, to_page, goes, goes-inside, header-goes,
}
use cdroid.Driver.Buffer.Pages.{binder_update_page_range}
use cdroid.Driver.Buffer.Paged.{
  EachNext-append_left, EachNext-append_right, PagedAt, page_at, EachNext, IsPaged,
}
use cdroid.Driver.Buffer.Tiling.{
  prev_from-middle, list_del-middle, next_of-middle, Tiles-Absent, last_or, Absent,
  Tiles-append_left, Tiles-le, Tiles-append_right, Tiles,
}
use cdroid.Driver.Kernel.{◌>>=◌, ok, Kernel}
use cdroid.Driver.Buffer.Free.{
  binder_delete_free_buffer, frees_start, frees_end, buffer_start_page, buffer_end_page,
}
use cdroid.Driver.Buffer.Merging.{delete_lem}
use cdroid.Driver.Buffer.Shrinking.{shrunk_around, free_ok, whole_in}
use cdroid.Driver.Buffer.{
  none, false, prev_of, list_del, Option, next_of, area_end, Proc, Buffer, List, next_addr,
  sizeof_buffer, first,
}
use cdroid.Prelude.{
  leb, ◌⊎◌, inl, inr, Bool-cases, subst, refl, append_assoc, ap, sym, some, ◌∙◌, ◌++◌, ℕ, ◌≡◌, ◌≤◌,
  ◌+◌, ◌%◌, ◌||◌, ◌∷◌, [], Bool, true, arith, if◌then◌else◌,
}

module _ (k : Kernel) (p : Proc) (pre post : List Buffer) (prev d : Buffer)
    (listed : p.buffers ≡ pre ++ prev ∷ d ∷ post)
    (tiles : Tiles p.buffer (area_end p) (pre ++ prev ∷ d ∷ post)) (prev_free : prev.free ≡ true)
    (d_free : d.free ≡ true) (w : IsPaged p) where
  abbrev behind : ℕ
  behind = next_addr (area_end p) post

  abbrev lo : ℕ
  lo = prev.addr + sizeof_buffer

  abbrev start : Bool
  start = frees_start d.addr prev.addr (first post)

  abbrev stop : Bool
  stop = frees_end d.addr prev.addr (first post)

  here : Tiles prev.addr (area_end p) (prev ∷ d ∷ post)
  here = Tiles-append_right (area_end p) p.buffer pre (prev ∷ d ∷ post) tiles

  before : Tiles p.buffer prev.addr pre
  before = Tiles-append_left (area_end p) p.buffer pre (prev ∷ d ∷ post) tiles

  low : p.buffer ≤ prev.addr
  low = Tiles-le prev.addr p.buffer pre before

  end_aligned : area_end p % 4096 ≡ 0
  end_aligned = omega (arith, w.aligned, w.whole)

  start_is : start ≡ whole_in lo behind (buffer_start_page d.addr)
  start_is = frees_start_lem prev.addr d.addr (area_end p) post here.1 here.2.1 end_aligned

  stop_is : stop ≡ whole_in lo behind (buffer_end_page d.addr)
  stop_is = frees_end_lem prev.addr d.addr (area_end p) post here.1 here.2.1 end_aligned

  page_aligned : (i : ℕ) → page_at p.buffer i % 4096 ≡ 0
  page_aligned i = omega (arith, w.aligned)

  paged : EachNext (PagedAt p.buffer p.pages) (area_end p) (pre ++ prev ∷ d ∷ post)
  paged = subst (EachNext (PagedAt p.buffer p.pages) (area_end p)) listed w.paged

  paged_here : EachNext (PagedAt p.buffer p.pages) (area_end p) (prev ∷ d ∷ post)
  paged_here =
      EachNext-append_right (PagedAt p.buffer p.pages) (area_end p) pre (prev ∷ d ∷ post) paged

  not_before : Absent d.addr (pre ++ prev ∷ [])
  not_before =
      (Tiles-Absent d post p.buffer (area_end p) (pre ++ prev ∷ [])
        (rw (append_assoc pre (prev ∷ []) (d ∷ post)) tiles)).0

  split : p.buffers ≡ (pre ++ prev ∷ []) ++ d ∷ post
  split = listed ∙ sym (append_assoc pre (prev ∷ []) (d ∷ post))

  last_or_end : (o : Option Buffer) (pre : List Buffer) → last_or o (pre ++ prev ∷ []) ≡ some prev
  last_or_end o [] = refl
  last_or_end o (x ∷ pre) = last_or_end (some x) pre

  prev_is : prev_of d.addr p.buffers ≡ some prev
  prev_is =
      ap (prev_of d.addr) split
      ∙ prev_from-middle d post none (pre ++ prev ∷ []) not_before
      ∙ last_or_end none pre

  next_is : next_of d.addr p.buffers ≡ first post
  next_is = ap (next_of d.addr) split ∙ next_of-middle d post (pre ++ prev ∷ []) not_before

  deleted : list_del d.addr p.buffers ≡ pre ++ prev ∷ post
  deleted =
      ap (list_del d.addr) split
      ∙ list_del-middle d post (pre ++ prev ∷ []) not_before
      ∙ append_assoc pre (prev ∷ []) post

  -- What is freed is there: the header that goes lies on it.
  there : (i : ℕ) → goes d.addr start stop (page_at p.buffer i) ≡ true → p.pages i ≡ true
  there i g =
      let (l, u, m, n) =
        goes-inside d.addr start stop (page_at p.buffer i) (page_aligned i) lo behind start_is
          stop_is g in
      paged_here.1.0.1 i m (ground (arith, d_free))

  abbrev unlinked : Proc
  unlinked = record p { buffers = list_del d.addr p.buffers }

  delete_is : binder_delete_free_buffer k p d.addr ≡ (
      if start || stop
      then (binder_update_page_range k unlinked false
            (from_page d.addr start)
            (to_page d.addr stop)
            false
          >>= λ r. ok r.1)
      else ok unlinked)
  unfolding binder_delete_free_buffer
  delete_is = rw (prev_is, binder_delete_free_buffer, next_is, prev_free) refl

  delete_pages :
      (q : Proc) × (binder_delete_free_buffer k p d.addr ≡ ok q)
      × ((i : ℕ)
          → q.pages i ≡ (if goes d.addr start stop (page_at p.buffer i) then false else p.pages i))
  delete_pages = elim (Bool-cases (start || stop)) [
    | inr neither ↦ (unlinked, delete_is ∙ rw neither refl, λ i. ground arith)
    | inl some_page ↦
        let (r, q, e, pages) =
          free_ok k unlinked (from_page d.addr start) (to_page d.addr stop) w.aligned (ground arith)
            (ground arith) (ground (arith, start_is, low, stop_is))
            (λ i l u. there i (ground arith)) in
        (q, rw delete_is (rw some_page (rw e (refl {a = ok q}))), λ i. ground (arith, pages i))
  ]

  -- The page is in the free buffer that the two become.
  between :
      (after : ℕ → Bool)
      → ((i : ℕ)
          → after i ≡ (if goes d.addr start stop (page_at p.buffer i) then false else p.pages i))
      → PagedAt p.buffer after prev behind
  between after pages = (
    λ i f l u. elim (Bool-cases (p.pages i)) [
      | inr gone ↦ ground (arith, pages i)
      | inl there ↦ elim (Bool-cases (leb (page_at p.buffer i + 4096) d.addr)) [
        | inl early ↦ absurd (ground (arith, paged_here.0.0 i prev_free l (ground arith)))
        | inr late ↦ elim (Bool-cases (leb (d.addr + sizeof_buffer) (page_at p.buffer i))) [
          | inl past ↦ absurd (ground (arith, paged_here.1.0.0 i d_free (ground arith) u))
          | inr meets ↦
              let g =
                header-goes d.addr start stop (page_at p.buffer i) (page_aligned i) lo behind
                  start_is stop_is l u (ground arith) (ground arith) in
              ground (arith, pages i)
        ]
      ]
    ],
    λ i l u. elim (Bool-cases (goes d.addr start stop (page_at p.buffer i))) [
      | inr stays ↦ ground (arith, pages i, paged_here.0.1 i l (ground (arith, prev_free)))
      | inl g ↦
          let (l', u', m, n) =
            goes-inside d.addr start stop (page_at p.buffer i) (page_aligned i) lo behind start_is
              stop_is g in
          absurd (ground (arith, prev_free))
    ],
  )

  shrunk :
      (after : ℕ → Bool)
      → ((i : ℕ)
          → after i ≡ (if goes d.addr start stop (page_at p.buffer i) then false else p.pages i))
      → (i : ℕ)
      → (after i ≡ p.pages i)
        ⊎ ((after i ≡ false) × (lo ≤ page_at p.buffer i) × (page_at p.buffer i + 4096 ≤ behind))
  shrunk after pages i = elim (Bool-cases (goes d.addr start stop (page_at p.buffer i))) [
    | inr stays ↦ inl (ground (arith, pages i))
    | inl g ↦
        let (l, u, m, n) =
          goes-inside d.addr start stop (page_at p.buffer i) (page_aligned i) lo behind start_is
            stop_is g in
        inr (ground (arith, pages i), l, u)
  ]

  -- The deletion of a free header behind a free buffer reaches no BUG, and the pages fit the one
  -- free buffer that is left.
  pub delete_ok : (q : Proc) × (binder_delete_free_buffer k p d.addr ≡ ok q) × IsPaged q
  delete_ok =
      let (q, e, pages) = delete_pages in
      let only =
        delete_lem k p q d.addr e ∙ λ i. record p { buffers = deleted i; pages = q.pages } in
      (
        q,
        e,
        subst IsPaged (sym only) (record {
          aligned = w.aligned;
          whole = w.whole;
          paged =
              shrunk_around p.buffer lo behind p.pages q.pages (shrunk q.pages pages) (area_end p)
                pre post prev refl (omega arith) before here.2.2
                (EachNext-append_left (PagedAt p.buffer p.pages) (area_end p) pre (prev ∷ d ∷ post)
                  paged)
                paged_here.1.1 (between q.pages pages);
        }),
      )
