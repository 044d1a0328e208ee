-- ===== src/Driver/Buffer/PagedTaking.antt =====
-- The pages of the area of driver/binder.c behind an allocation.
use cdroid.Driver.Buffer.Rounding.{kept_low, kept_far, below_align, close_end, header_end}
use cdroid.Driver.Buffer.Granting.{RestIs}
use cdroid.Driver.Buffer.Ranges.{covered, outside, page_count, inside, first_page}
use cdroid.Driver.Buffer.Taking.{taken}
use cdroid.Driver.Buffer.PagesLaws.{within}
use cdroid.Driver.Buffer.Tiling.{
  size_in-middle, Tiles-Absent, Tiles-append_left, Tiles-append_right, Tiles, Absent, Tiles-le,
}
use cdroid.Driver.Buffer.Alloc.{kept_size, request_size}
use cdroid.Driver.Buffer.Paged.{
  EachNext-append, EachNext-append_left, EachNext-mono, EachNext-append_right, page_at, EachNext,
  PagedAt, IsPaged,
}
use cdroid.Driver.Buffer.Valid.{IsValid}
use cdroid.Driver.Buffer.{
  page_mask, false, size_in, area_end, next_addr, sizeof_buffer, binder_buffer_size, ok, true,
  Buffer, Option, List, Proc, page_align,
}
use cdroid.Driver.Rbtree.{Rb}
use cdroid.Driver.Kernel.{Result, Kernel}
use cdroid.Prelude.{
  [], leb, Bool-cases, ltb, ◌<◌, ◌<◌, sym, leb, ◌⊎◌, arith, Bool, ℕ, if◌then◌else◌, ◌++◌, ◌∷◌, ◌≡◌,
  ◌≤◌, ◌+◌, ◌*◌, ◌%◌, ◌-◌, refl, inl, inr, min, ◌∙◌, subst, ap,
}

-- Where the range that is mapped for a request in the buffer at `x` ends.
abbrev pub stop_at : Proc → ℕ → Bool → ℕ → ℕ
stop_at p size exact x =
    min (page_align (x + sizeof_buffer + kept_size (binder_buffer_size p x) size exact))
      (page_mask (x + sizeof_buffer + binder_buffer_size p x))

module _ (k : Kernel) (rb : Rb) (p : Proc) (data_size offsets_size : ℕ) (is_async : Bool)
    (v : IsValid p) (w : IsPaged p) where
  abbrev asked : ℕ
  asked = request_size data_size offsets_size

  abbrev Returns : Result (Option ℕ × Proc) → Type 0
  Returns result = (r : Option ℕ) × (q : Proc) × (result ≡ ok (r, q)) × IsPaged q

  module _ (pre post : List Buffer) (b : Buffer) (exact : Bool) (at : p.buffers ≡ pre ++ b ∷ post)
      (was_free : b.free ≡ true) (large : asked ≤ binder_buffer_size p b.addr) where
    abbrev whole : ℕ
    whole = binder_buffer_size p b.addr

    abbrev behind : ℕ
    behind = next_addr (area_end p) post

    tiles : Tiles p.buffer (area_end p) (pre ++ b ∷ post)
    tiles = subst (Tiles p.buffer (area_end p)) at v.tiles

    absent : Absent b.addr pre
    absent = (Tiles-Absent b post p.buffer (area_end p) pre tiles).0

    whole_is : whole ≡ behind - (b.addr + sizeof_buffer)
    unfolding binder_buffer_size
    whole_is = ap (size_in (area_end p) b.addr) at ∙ size_in-middle b post (area_end p) pre absent

    above : b.addr + sizeof_buffer ≤ behind
    above = (Tiles-append_right (area_end p) p.buffer pre (b ∷ post) tiles).1

    low : p.buffer ≤ b.addr
    low =
        Tiles-le b.addr p.buffer pre (Tiles-append_left (area_end p) p.buffer pre (b ∷ post) tiles)

    paged : EachNext (PagedAt p.buffer p.pages) (area_end p) (pre ++ b ∷ post)
    paged = subst (EachNext (PagedAt p.buffer p.pages) (area_end p)) at w.paged

    paged_here : EachNext (PagedAt p.buffer p.pages) (area_end p) (b ∷ post)
    paged_here = EachNext-append_right (PagedAt p.buffer p.pages) (area_end p) pre (b ∷ post) paged

    abbrev pub stop : ℕ
    stop = stop_at p asked exact b.addr

    abbrev pub first : ℕ
    first = first_page p.buffer (b.addr + sizeof_buffer)

    abbrev pub count : ℕ
    count = page_count (b.addr + sizeof_buffer) stop

    pub stop_aligned : stop % 4096 ≡ 0
    stop_aligned = omega arith

    pub start_low : p.buffer ≤ b.addr + sizeof_buffer
    start_low = omega (arith, low)

    stop_high : stop ≤ behind
    stop_high = omega (arith, whole_is, above)

    pub gone : (i : ℕ) → within first count i ≡ true → p.pages i ≡ false
    gone i n =
        let (l, u) =
          inside p.buffer (b.addr + sizeof_buffer) stop w.aligned start_low i stop_aligned n in
        paged_here.0.0 i was_free l (omega (arith, u, stop_high))

    module _ (q : Proc) (exact_is : exact ≡ leb whole asked) (same_base : q.buffer ≡ p.buffer)
        (same_size : q.buffer_size ≡ p.buffer_size)
        (pages : (i : ℕ) → q.pages i ≡ (if within first count i then true else p.pages i)) where
      untouched :
          (i : ℕ)
          → (p.buffer + i * 4096 + 4096 ≤ b.addr + sizeof_buffer) ⊎ (stop ≤ p.buffer + i * 4096)
          → q.pages i ≡ p.pages i
      untouched i far =
          pages i
          ∙ rw
              (outside p.buffer (b.addr + sizeof_buffer) stop w.aligned start_low i stop_aligned
                far)
              refl

      grown : (i : ℕ) → p.pages i ≡ true → q.pages i ≡ true
      grown i h = ground (arith, pages i)

      -- A buffer on either side keeps its pages as they are.
      kept_at :
          (c : Buffer) (n : ℕ)
          → (n ≤ b.addr) ⊎ (behind ≤ c.addr)
          → PagedAt p.buffer p.pages c n
          → PagedAt p.buffer q.pages c n
      kept_at c n (inl below) h = (
        λ i f l u. untouched i (inl (omega (arith, u, below))) ∙ h.0 i f l u,
        λ i l u. grown i (h.1 i l u),
      )
      kept_at c n (inr beyond) h = (
        λ i f l u. untouched i (inr (omega (arith, l, beyond, stop_high))) ∙ h.0 i f l u,
        λ i l u. grown i (h.1 i l u),
      )

      paged_pre : EachNext (PagedAt p.buffer q.pages) b.addr pre
      paged_pre =
          EachNext-mono (PagedAt p.buffer p.pages) b.addr (PagedAt p.buffer q.pages) p.buffer pre
            (Tiles-append_left (area_end p) p.buffer pre (b ∷ post) tiles)
            (λ c n l m u. kept_at c n (inl u))
            (EachNext-append_left (PagedAt p.buffer p.pages) (area_end p) pre (b ∷ post) paged)

      paged_post : EachNext (PagedAt p.buffer q.pages) (area_end p) post
      paged_post =
          EachNext-mono (PagedAt p.buffer p.pages) (area_end p) (PagedAt p.buffer q.pages) behind
            post (Tiles-append_right (area_end p) p.buffer pre (b ∷ post) tiles).2
            (λ c n l m u. kept_at c n (inr l)) paged_here.1

      stop_near : stop ≤ page_align (b.addr + sizeof_buffer + (asked + sizeof_buffer))
      stop_near = ground (arith, exact_is)

      -- The page that the next header begins on, if not at its start, is there.
      straddling :
          (i : ℕ)
          → page_at p.buffer i < behind
          → behind < page_at p.buffer i + 4096
          → p.pages i ≡ true
      straddling i l u =
          by_post post paged_here.1
            (Tiles-append_right (area_end p) p.buffer pre (b ∷ post) tiles).2 l u
        where
          by_post :
              (post : List Buffer)
              → EachNext (PagedAt p.buffer p.pages) (area_end p) post
              → Tiles (next_addr (area_end p) post) (area_end p) post
              → page_at p.buffer i < next_addr (area_end p) post
              → next_addr (area_end p) post < page_at p.buffer i + 4096
              → p.pages i ≡ true
          by_post [] h t l u = absurd (omega (arith, w.aligned, w.whole))
          by_post (x ∷ xs) h t l u = h.0.1 i (omega (arith, u)) (ground (arith, t.1))

      present :
          (i : ℕ)
          → b.addr < page_at p.buffer i + 4096
          → page_at p.buffer i < behind
          → (page_at p.buffer i + 4096
              ≤ page_align (b.addr + sizeof_buffer + kept_size whole asked exact))
            ⊎ (behind < page_at p.buffer i + 4096)
          → q.pages i ≡ true
      present i l u c = elim (Bool-cases (ltb (page_at p.buffer i) (b.addr + sizeof_buffer))) [
        | inl header ↦ grown i (paged_here.0.1 i l (ground arith))
        | inr further ↦ elim (Bool-cases (leb (page_at p.buffer i + 4096) stop)) [
          | inl in_range ↦
              pages i
              ∙ rw
                  (covered p.buffer (b.addr + sizeof_buffer) stop w.aligned start_low i stop_aligned
                    (ground arith) (ground arith))
                  refl
          | inr last ↦ grown i (straddling i u (last_page i c (ground arith)))
        ]
      ]
        where
          last_page :
              (i : ℕ)
              → (page_at p.buffer i + 4096
                  ≤ page_align (b.addr + sizeof_buffer + kept_size whole asked exact))
                ⊎ (behind < page_at p.buffer i + 4096)
              → stop < page_at p.buffer i + 4096
              → behind < page_at p.buffer i + 4096
          last_page i (inl h) k = omega (arith, w.aligned, whole_is, above)
          last_page i (inr h) k = h

      low_end : asked ≤ kept_size whole asked exact
      low_end = kept_low whole asked exact exact_is large

      near_end :
          (i : ℕ)
          → page_at p.buffer i < behind
          → behind ≤ b.addr + sizeof_buffer + asked + sizeof_buffer + 4
          → (page_at p.buffer i + 4096
              ≤ page_align (b.addr + sizeof_buffer + kept_size whole asked exact))
            ⊎ (behind < page_at p.buffer i + 4096)
      near_end i u near =
          close_end (page_at p.buffer i) (b.addr + sizeof_buffer) (kept_size whole asked exact)
            asked behind (omega (arith, w.aligned)) low_end near

      far_end :
          (i : ℕ)
          → page_at p.buffer i < b.addr + sizeof_buffer + asked + sizeof_buffer
          → b.addr + sizeof_buffer + asked + sizeof_buffer + 4 < behind
          → page_at p.buffer i + 4096
            ≤ page_align (b.addr + sizeof_buffer + kept_size whole asked exact)
      far_end i u far =
          below_align (page_at p.buffer i) (b.addr + sizeof_buffer + kept_size whole asked exact)
            (omega (arith, w.aligned))
            (omega (arith, u, kept_far whole asked exact exact_is (omega (arith, far, whole_is))))

      paged_taken :
          (rest : List Buffer)
          → RestIs p b.addr asked post rest
          → EachNext
              (PagedAt p.buffer q.pages)
              (area_end p)
              (taken b data_size offsets_size is_async ∷ rest)
      paged_taken rest (inl (e, near)) =
          subst
            (λ rest.
              EachNext (PagedAt p.buffer q.pages) (area_end p)
                (taken b data_size offsets_size is_async ∷ rest))
            (sym e)
            (
              (λ i f l u. absurd (ground arith), λ i l u. present i l u (near_end i u near)),
              paged_post,
            )
      paged_taken rest (inr (new, e, f, at_new, far)) =
          subst
            (λ rest.
              EachNext (PagedAt p.buffer q.pages) (area_end p)
                (taken b data_size offsets_size is_async ∷ rest))
            (sym e)
            (
              (
                λ i f l u. absurd (ground arith),
                λ i l u.
                    present i l (omega (arith, u, at_new, far))
                      (inl (far_end i (omega (arith, u, at_new)) far)),
              ),
              (
                (
                  λ i free l u.
                      untouched i (inr (omega (arith, l, at_new, stop_near, w.aligned)))
                      ∙ paged_here.0.0 i was_free (omega (arith, l, at_new)) u,
                  λ i l u.
                      (let u' = header_end (page_at p.buffer i) behind new f u in
                        present i (omega (arith, l, at_new)) (omega (arith, u', at_new, far))
                          (inl (far_end i (omega (arith, u', at_new)) far))),
                ),
                paged_post,
              ),
            )

      pub after_take :
          (rest : List Buffer)
          → q.buffers ≡ pre ++ taken b data_size offsets_size is_async ∷ rest
          → RestIs p b.addr asked post rest
          → IsPaged q
      after_take rest list rest_is = record {
        aligned = rw same_base w.aligned;
        whole = rw same_size w.whole;
        paged =
            rw (same_base, same_size, list)
              (EachNext-append (PagedAt p.buffer q.pages) (area_end p) pre
                (taken b data_size offsets_size is_async ∷ rest) paged_pre
                (paged_taken rest rest_is));
      }
