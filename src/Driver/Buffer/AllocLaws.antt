-- ===== src/Driver/Buffer/AllocLaws.antt =====
-- binder_alloc_buf of driver/binder.c: validity, and which buffer is allocated.
use cdroid.Driver.Buffer.Insert.{listed_free-addrs}
use cdroid.Driver.Rbtree.Holds.{Holds-search_visits}
use cdroid.Driver.Buffer.Taken.{Granted}
use cdroid.Driver.Kernel.{◌>>=◌, >>=-eq-ok, Kernel, ok, Result}
use cdroid.Driver.Rbtree.{search_visits, Rb, inorder}
use cdroid.Driver.Buffer.{area_end, listed_free, Buffer, Proc, sizeof_buffer, binder_buffer_size}
use cdroid.Driver.Buffer.Alloc.{
  best_fit, request_size, kept_size, take_buffer, alloc_at, binder_alloc_buf,
}
use cdroid.Driver.Buffer.Pages.{binder_update_page_range}
use cdroid.Driver.Buffer.PagesLaws.{update-only_pages}
use cdroid.Driver.Buffer.Fit.{best_fit_from, best_fit_least}
use cdroid.Driver.Buffer.Granting.{Allocated, pages-IsValid, take-IsValid}
use cdroid.Driver.Buffer.Tiling.{addrs, addrs-split}
use cdroid.Driver.Buffer.Valid.{IsValid}
use cdroid.Prelude.{
  ℕ, ◌+◌, ◌%◌, ◌^◌, ◌≤◌, ◌<◌, ◌≡◌, refl, ap, ◌∙◌, sym, subst, subst₂, Bool, true, false, not, List,
  ◌∷◌, ◌++◌, Option, none, some, inl, inr, arith, ltb, leb, if◌then◌else◌, Bool-cases, ◌||◌, ◌&&◌,
  Option-cases, count, All-count,
}

-- The outcome of an allocation: no memory for the pages, and nothing else changed, or a buffer.
abbrev pub Outcome : Proc → Option ℕ → Proc → ℕ → ℕ → Bool → Type 0
Outcome p none q data_size offsets_size is_async = q ≡ record p { pages = q.pages }
Outcome p (some a) q data_size offsets_size is_async =
    Allocated p q a data_size offsets_size is_async

-- The walk for the best fit meets free buffers only.
pub free_walk :
    (rb : Rb) (p : Proc)
    → IsValid p
    → (size : ℕ)
    → search_visits (binder_buffer_size p) (listed_free p.buffers) size p.free_buffers ≡ true
free_walk rb p v size =
    Holds-search_visits rb (binder_buffer_size p) p.free_buffers (addrs true p.buffers) v.free_tree
      (listed_free p.buffers) (λ a c. listed_free-addrs p.buffer (area_end p) p.buffers v.tiles a c)
      size

module _ (k : Kernel) (rb : Rb) (p : Proc) (data_size offsets_size : ℕ) (is_async : Bool)
    (v : IsValid p) where
  abbrev asked : ℕ
  asked = request_size data_size offsets_size

  module _ (granted : Granted p data_size offsets_size is_async) where
    pub taken_here :
        (pre post : List Buffer) (b : Buffer) (p1 : Proc) (exact : Bool)
        → p.buffers ≡ pre ++ b ∷ post
        → b.free ≡ true
        → p1 ≡ record p { pages = p1.pages }
        → asked ≤ binder_buffer_size p b.addr
        → exact ≡ leb (binder_buffer_size p b.addr) asked
        → (q : Proc) × (take_buffer rb p1 b.addr
              (kept_size (binder_buffer_size p b.addr) asked exact)
              asked
              data_size
              offsets_size
              is_async
            ≡ ok q)
          × IsValid q
          × Allocated p q b.addr data_size offsets_size is_async
    unfolding binder_buffer_size
    taken_here pre post b p1 exact at was_free pages large e =
        let p0 = record p { pages = p1.pages } in
        let there : p0 ≡ record p0 { buffers = pre ++ b ∷ post } =
          λ i. record p0 { buffers = at i } in
        let valid = subst IsValid there (pages-IsValid p p1.pages v) in
        let size_there = ap (λ (x : Proc). binder_buffer_size x b.addr) there in
        let (q', took, valid', what) =
          take-IsValid rb p0 pre post b data_size offsets_size is_async valid was_free
            (omega (arith, size_there)) granted exact (e ∙ ap (λ n. leb n asked) size_there) in
        let took' =
          subst
            (λ (x : Proc).
              take_buffer rb x b.addr (kept_size (binder_buffer_size x b.addr) asked exact) asked
                data_size offsets_size is_async
              ≡ ok q')
            (sym there) took in
        (
          q',
          subst
              (λ (x : Proc).
                take_buffer rb x b.addr (kept_size (binder_buffer_size p b.addr) asked exact) asked
                  data_size offsets_size is_async
                ≡ ok q')
              (sym pages) took',
          valid',
          record {
            pre = what.pre;
            post = what.post;
            found = what.found;
            rest = what.rest;
            at = what.at;
            was_free = what.was_free;
            before = at ∙ what.before;
            after = what.after;
            rest_is = what.rest_is;
            space = what.space;
          },
        )

    ending :
        (pre post : List Buffer) (b : Buffer) (exact done : Bool) (p1 : Proc) (r : Option ℕ)
        (q : Proc)
        → p.buffers ≡ pre ++ b ∷ post
        → b.free ≡ true
        → p1 ≡ record p { pages = p1.pages }
        → asked ≤ binder_buffer_size p b.addr
        → exact ≡ leb (binder_buffer_size p b.addr) asked
        → ◌≡◌ {A = Result (Option ℕ × Proc)}
            (if not done
              then ok (none, p1)
              else (take_buffer rb p1 b.addr
                    (kept_size (binder_buffer_size p b.addr) asked exact)
                    asked
                    data_size
                    offsets_size
                    is_async
                  >>= λ q. ok (some b.addr, q)))
            (ok (r, q))
        → IsValid q × Outcome p r q data_size offsets_size is_async
    ending pre post b exact false p1 r q at was_free pages large e h =
        let r_is : none ≡ r = cc in
        let q_is : p1 ≡ q = cc in
        subst₂ (λ r (q : Proc). IsValid q × Outcome p r q data_size offsets_size is_async) r_is q_is
          (subst IsValid (sym pages) (pages-IsValid p p1.pages v), pages)
    ending pre post b exact true p1 r q at was_free pages large e h =
        let (q', took, valid, what) = taken_here pre post b p1 exact at was_free pages large e in
        let h' : ◌≡◌ {A = Result (Option ℕ × Proc)} (ok (some b.addr, q')) (ok (r, q)) =
          rw took at h in
        let r_is : some b.addr ≡ r = cc in
        let q_is : q' ≡ q = cc in
        subst₂ (λ r (q : Proc). IsValid q × Outcome p r q data_size offsets_size is_async) r_is q_is
          (valid, what)

    -- With a fit found, the pages decide: without them nothing else changes, with them a buffer is
    -- allocated.
    alloc_at_lem :
        (pre post : List Buffer) (b : Buffer) (exact : Bool) (r : Option ℕ) (q : Proc)
        → p.buffers ≡ pre ++ b ∷ post
        → b.free ≡ true
        → asked ≤ binder_buffer_size p b.addr
        → exact ≡ leb (binder_buffer_size p b.addr) asked
        → alloc_at k rb p (b.addr, exact) asked data_size offsets_size is_async ≡ ok (r, q)
        → IsValid q × Outcome p r q data_size offsets_size is_async
    unfolding alloc_at
    alloc_at_lem pre post b exact r q at was_free large e h =
        let ((done, p1), u, h') = >>=-eq-ok (binder_update_page_range k p true _ _ false) _ h in
        ending pre post b exact done p1 r q at was_free
          (update-only_pages k p true _ _ false done p1 u) large e h'

-- What the guards ask for is the sum of the two aligned sizes, without a wrap.
pub request_size_exact :
    (data_size offsets_size : ℕ)
    → data_size < 2 ^ 64
    → offsets_size < 2 ^ 64
    → data_size ≤ request_size data_size offsets_size
    → offsets_size ≤ request_size data_size offsets_size
    → (data_size + offsets_size ≤ request_size data_size offsets_size)
      × (request_size data_size offsets_size ≤ data_size + offsets_size + 14)
request_size_exact data_size offsets_size d o h k = (omega arith, omega arith)

module _ (k : Kernel) (rb : Rb) (p : Proc) (data_size offsets_size : ℕ) (is_async : Bool)
    (v : IsValid p) where
  refused :
      (r : Option ℕ) (q : Proc)
      → ◌≡◌ {A = Result (Option ℕ × Proc)} (ok (none, p)) (ok (r, q))
      → IsValid q × Outcome p r q data_size offsets_size is_async
  refused r q h =
      let r_is : none ≡ r = cc in
      let q_is : p ≡ q = cc in
      subst₂ (λ r (q : Proc). IsValid q × Outcome p r q data_size offsets_size is_async) r_is q_is
        (v, refl)

  chosen :
      (a : ℕ) (exact : Bool) (r : Option ℕ) (q : Proc)
      → Granted p data_size offsets_size is_async
      → best_fit (binder_buffer_size p) (request_size data_size offsets_size) none p.free_buffers
        ≡ some (a, exact)
      → alloc_at k rb p
          (a, exact)
          (request_size data_size offsets_size)
          data_size
          offsets_size
          is_async
        ≡ ok (r, q)
      → IsValid q × Outcome p r q data_size offsets_size is_async
  chosen a exact r q granted f h = elim (best_fit_from _ _ p.free_buffers none a exact f) [
    | inl n ↦ absurd (ground arith)
    | inr (c, large, e) ↦
        let (pre, b, post, at, same, was_free) =
          addrs-split a true p.buffers (omega (arith, c, v.free_tree.nodes a)) in
        alloc_at_lem k rb p data_size offsets_size is_async v granted pre post b exact r q at
          was_free (rw same at large) (rw same at e) (rw same at h)
  ]

  pub binder_alloc_buf-IsValid :
      (r : Option ℕ) (q : Proc)
      → binder_alloc_buf k rb p data_size offsets_size is_async ≡ ok (r, q)
      → IsValid q × Outcome p r q data_size offsets_size is_async
  unfolding binder_alloc_buf
  binder_alloc_buf-IsValid r q h =
      let size = request_size data_size offsets_size in
      let walk = free_walk rb p v size in
      elim (Bool-cases (not p.vma || (ltb size data_size || ltb size offsets_size))) [
        | inl bad ↦ refused r q (ground arith)
        | inr fine ↦
            elim (Bool-cases
              (is_async && ltb p.free_async_space ((size + sizeof_buffer) % 2 ^ 64))) [
                | inl full ↦ refused r q (ground arith)
                | inr granted ↦
                    elim (Option-cases (best_fit (binder_buffer_size p) size none p.free_buffers)) [
                      | inl e ↦ refused r q (ground arith)
                      | inr ((a, exact), e) ↦
                          chosen a exact r q (λ y. ground arith, ground arith, ground arith) e
                            (ground arith)
                    ]
              ]
      ]

  alloc_at_address :
      (a a' : ℕ) (exact : Bool) (size : ℕ) (q : Proc)
      → alloc_at k rb p (a, exact) size data_size offsets_size is_async ≡ ok (some a', q)
      → a ≡ a'
  unfolding alloc_at
  alloc_at_address a a' exact size q h =
      let ((done, p1), u, h') = >>=-eq-ok (binder_update_page_range k p true _ _ false) _ h in
      by_done done p1 h'
    where
      by_done :
          (done : Bool) (p1 : Proc)
          → ◌≡◌ {A = Result (Option ℕ × Proc)}
              (if not done
                then ok (none, p1)
                else (take_buffer rb p1 a
                      (kept_size (binder_buffer_size p a) size exact)
                      size
                      data_size
                      offsets_size
                      is_async
                    >>= λ q. ok (some a, q)))
              (ok (some a', q))
          → a ≡ a'
      by_done false p1 h = absurd (ground arith)
      by_done true p1 h =
          let (q', e, h') =
            >>=-eq-ok {B = Option ℕ × Proc}
              (take_buffer rb p1 a (kept_size (binder_buffer_size p a) size exact) size data_size
                offsets_size is_async)
              (λ q. ok (some a, q)) {b = (some a', q)} h in
          cc

  -- The buffer that binder_alloc_buf takes from valid buffers is the best fit: every free buffer
  -- that is large enough for the request is at least as large.
  pub binder_alloc_buf_best :
      (a : ℕ) (q : Proc)
      → binder_alloc_buf k rb p data_size offsets_size is_async ≡ ok (some a, q)
      → (y : ℕ) → 0 < count y (addrs true p.buffers)
      → request_size data_size offsets_size ≤ binder_buffer_size p y
      → binder_buffer_size p a ≤ binder_buffer_size p y
  unfolding binder_alloc_buf
  binder_alloc_buf_best a q h y c large =
      let size = request_size data_size offsets_size in
      let walk = free_walk rb p v size in
      elim (Option-cases (best_fit (binder_buffer_size p) size none p.free_buffers)) [
        | inl e ↦ absurd (ground arith)
        | inr ((a', exact), e) ↦
            let h' : alloc_at k rb p (a', exact) size data_size offsets_size is_async
                ≡ ok (some a, q) =
              ground arith in
            let same = alloc_at_address a' a exact size q h' in
            let least =
              best_fit_least (binder_buffer_size p) size p.free_buffers none a' exact
                v.free_tree.order (λ b f s. absurd (ground arith)) e in
            let there : 0 < count y (inorder p.free_buffers) =
              omega (arith, c, v.free_tree.nodes y) in
            rw (← same) (
              All-count
                (λ y.
                  size ≤ binder_buffer_size p y → binder_buffer_size p a' ≤ binder_buffer_size p y)
                y (inorder p.free_buffers) least there large)
      ]
