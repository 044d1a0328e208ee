-- ===== src/Driver/Buffer/FreeLaws.antt =====
-- binder_free_buf of driver/binder.c keeps the buffers valid.
use cdroid.Driver.Kernel.{◌>>=◌, Kernel, Result, ok, >>=-eq-ok}
use cdroid.Driver.Buffer.Pages.{binder_update_page_range}
use cdroid.Driver.Buffer.PagesLaws.{update-only_pages}
use cdroid.Driver.Rbtree.{Rb, link_by}
use cdroid.Driver.Rbtree.Holds.{Holds-erase, Holds-rekey, Holds-same, Holds-link_by}
use cdroid.Driver.Buffer.{
  page_mask, page_align, binder_insert_free_buffer, [], Bool, Buffer, Proc, sizeof_buffer, area_end,
  set_buffer, size_in, binder_buffer_size, get_buffer,
}
use cdroid.Driver.Buffer.Free.{
  freed_size, merge_prev, freeable, merge_next, freed_space, release_buffer, free_at,
  binder_free_buf,
}
use cdroid.Driver.Buffer.Pending.{Pending_walk, count_free, Pending, Pending-insert}
use cdroid.Driver.Buffer.Merging.{merge_next-Pending, merge_prev-Pending}
use cdroid.Driver.Buffer.Valid.{
  used, async_used, Fits, IsValid, Fits-append, Fits-append_left, Fits-append_right,
  async_used-append,
}
use cdroid.Driver.Buffer.Insert.{insert_free}
use cdroid.Driver.Buffer.Tiling.{
  get_buffer-split, get_buffer-middle, last_free, Coalesced, in_use-append, in_use, Tiles,
  Coalesced, Tiles-Absent, Tiles-append, Tiles-append_left, Tiles-append_right,
  Coalesced-append_left, Coalesced-append_right, set_buffer-middle, addrs, addrs-append,
  size_in_replace,
}
use cdroid.Prelude.{
  ◌≤◌, Bool-cases, Option-cases, inl, inr, ℕ, ◌+◌, ◌≡◌, refl, ap, ◌∙◌, sym, subst, true, false,
  List, ◌∷◌, ◌++◌, arith, count, count-append,
}

-- No more is given back than was taken.
pub freed-used :
    (b : Buffer) → b.data_size ≤ used b → b.offsets_size ≤ used b → freed_size b ≤ used b
freed-used b d o = omega arith

module _ (rb : Rb) (p : Proc) (pages : ℕ → Bool) (pre post : List Buffer) (b : Buffer)
    (v : IsValid p) (at : p.buffers ≡ pre ++ b ∷ post) (taken : b.free ≡ false) where
  abbrev stop : ℕ
  stop = area_end p

  abbrev freed : Buffer
  freed = record b { free = true }

  tiles : Tiles p.buffer stop (pre ++ b ∷ post)
  tiles = rw at at v.tiles

  coalesced : Coalesced false (pre ++ b ∷ post)
  coalesced = rw at at v.coalesced

  fits : Fits stop (pre ++ b ∷ post)
  fits = rw at at v.fits

  less : freed_size b ≤ used b
  less =
      let fits_here = (Fits-append_right stop pre (b ∷ post) fits).0 taken in
      freed-used b fits_here.1 fits_here.2

  changed : set_buffer b.addr (λ b. record b { free = true }) p.buffers ≡ pre ++ freed ∷ post
  changed =
      ap (set_buffer b.addr (λ b. record b { free = true })) at
      ∙ set_buffer-middle b post (λ b. record b { free = true }) pre
          (Tiles-Absent b post p.buffer stop pre tiles).0

  same_sizes :
      (a : ℕ)
      → size_in stop a (set_buffer b.addr (λ b. record b { free = true }) p.buffers)
        ≡ size_in stop a p.buffers
  same_sizes a =
      ap (size_in stop a) changed
      ∙ size_in_replace stop a pre (freed ∷ post) (b ∷ post) refl refl
      ∙ ap (size_in stop a) (sym at)

  free_nodes :
      (a : ℕ) → count a (addrs true pre ++ addrs true post) ≡ count a (addrs true p.buffers)
  free_nodes a =
      ap (count a) (sym (ap (addrs true) at ∙ addrs-append true pre (b ∷ post) ∙ rw taken))

  allocated_nodes :
      (a : ℕ)
      → count a (addrs false p.buffers)
        ≡ count a (b.addr ∷ []) + count a (addrs false (pre ++ freed ∷ post))
  allocated_nodes a =
      rw (addrs-append false pre (freed ∷ post), at, addrs-append false pre (b ∷ post), taken)
        (omega (
          arith,
          count-append a (addrs false pre) (b.addr ∷ addrs false post),
          count-append a (addrs false pre) (addrs false post),
        ))

  -- A buffer that passes the BUG_ON lines, marked free.
  pub released :
      Pending
        (in_use pre ++ in_use post)
        (release_buffer rb (record p { free_async_space = freed_space p b; pages = pages }) b.addr)
        pre
        freed
        post
  unfolding binder_buffer_size
  released = record {
    listed = changed;
    tiles =
        let right = Tiles-append_right stop p.buffer pre (b ∷ post) tiles in
        Tiles-append stop p.buffer pre (freed ∷ post)
          (Tiles-append_left stop p.buffer pre (b ∷ post) tiles) (refl, right.1, right.2);
    is_free = refl;
    left = Coalesced-append_left false pre (b ∷ post) coalesced;
    right = rw taken at (Coalesced-append_right false pre (b ∷ post) coalesced).1;
    fits =
        Fits-append stop pre (freed ∷ post) (Fits-append_left stop pre (b ∷ post) fits)
          (λ f. absurd (ground arith), (Fits-append_right stop pre (b ∷ post) fits).1);
    free_tree =
        Holds-rekey rb (binder_buffer_size p) p.free_buffers (addrs true pre ++ addrs true post)
          (Holds-same rb (binder_buffer_size p) p.free_buffers (addrs true p.buffers) v.free_tree
            (addrs true pre ++ addrs true post) free_nodes)
          (λ a. size_in stop a (set_buffer b.addr (λ b. record b { free = true }) p.buffers))
          (λ a c. same_sizes a);
    allocated_tree =
        Holds-erase rb (λ x. x) p.allocated_buffers (addrs false p.buffers) v.allocated_tree b.addr
          (addrs false (pre ++ freed ∷ post)) allocated_nodes;
    async = ground (
      arith,
      v.async,
      v.area,
      ap async_used at,
      async_used-append pre (b ∷ post),
      async_used-append pre (freed ∷ post),
      less,
    );
    area = v.area;
    users = refl;
  }

-- The last step links the merged buffer.
insert_lem :
    (rb : Rb) (kept : List Buffer) (p q : Proc) (pre post : List Buffer) (b : Buffer)
    → Pending kept p pre b post
    → Coalesced true post
    → last_free false pre ≡ false
    → binder_insert_free_buffer rb p b.addr ≡ ok q
    → IsValid q × (in_use q.buffers ≡ kept)
insert_lem rb kept p q pre post b v c l h =
    let key = binder_buffer_size p in
    let absent = Tiles-Absent b post p.buffer (area_end p) pre v.tiles in
    let there = ap (get_buffer b.addr) v.listed ∙ get_buffer-middle b post pre absent.0 in
    let linked = rb.insert_color (link_by key (key b.addr) b.addr p.free_buffers) in
    let done : record p { free_buffers = linked } ≡ q =
      cc (insert_free rb p b.addr b there v.is_free (Pending_walk kept rb p pre b post v)) in
    let tree =
      Holds-link_by rb key p.free_buffers (addrs true pre ++ addrs true post) v.free_tree b.addr
        (addrs true p.buffers)
        λ a. ap (count a) (ap (addrs true) v.listed) ∙ count_free kept rb p pre b post v a in
    (
      subst IsValid done (Pending-insert kept rb p pre b post v (ground arith) linked tree),
      subst (λ (q : Proc). in_use q.buffers ≡ kept) done
          (ap in_use v.listed ∙ in_use-append pre (b ∷ post) ∙ rw v.is_free v.users),
    )

-- From the first merge on.
abbrev pub merging : Kernel → Rb → ℕ → Proc → Result Proc
merging k rb a p =
    merge_next k rb p a >>= λ q. merge_prev k rb q a >>= λ r. binder_insert_free_buffer rb r.1 r.0

merging_lem :
    (k : Kernel) (rb : Rb) (kept : List Buffer) (p q : Proc) (pre post : List Buffer) (b : Buffer)
    → Pending kept p pre b post
    → merging k rb b.addr p ≡ ok q
    → IsValid q × (in_use q.buffers ≡ kept)
merging_lem k rb kept p q pre post b v h =
    let (p2, m, h2) = >>=-eq-ok (merge_next k rb p b.addr) _ h in
    let (post', v2, c) = merge_next-Pending k rb b kept p p2 pre post v m in
    let ((a, p3), m', h3) = >>=-eq-ok (merge_prev k rb p2 b.addr) _ h2 in
    let (pre', b', e, v3, l) = merge_prev-Pending k rb b kept p2 p3 a pre post' v2 c m' in
    insert_lem rb kept p3 q pre' post' b' v3 c l (rw e at h3)

pub free_at_lem :
    (k : Kernel) (rb : Rb) (p q : Proc) (pre post : List Buffer) (b : Buffer)
    → IsValid p
    → p.buffers ≡ pre ++ b ∷ post
    → free_at k rb p b ≡ ok q
    → (b.free ≡ false) × IsValid q × (in_use q.buffers ≡ in_use pre ++ in_use post)
unfolding free_at
free_at_lem k rb p q pre post b v at h = elim (Bool-cases (freeable p b (freed_size b))) [
  | inr bad ↦ absurd (ground arith)
  | inl fine ↦
      let taken : b.free ≡ false = ground arith in
      let p0 = record p { free_async_space = freed_space p b } in
      let from = page_align (b.addr + sizeof_buffer) in
      let to = page_mask (b.addr + sizeof_buffer + binder_buffer_size p b.addr) in
      let ((r, p1), u, h1) =
        >>=-eq-ok (binder_update_page_range k p0 false from to false)
          (λ r. merging k rb b.addr (release_buffer rb r.1 b.addr)) {b = q} (rw fine at h) in
      let pages = update-only_pages k p0 false from to false r p1 u in
      let v1 =
        subst
          (λ (x : Proc).
            Pending (in_use pre ++ in_use post) (release_buffer rb x b.addr) pre
              (record b { free = true }) post)
          (sym pages) (released rb p p1.pages pre post b v at taken) in
      let (valid, users) =
        merging_lem k rb (in_use pre ++ in_use post) (release_buffer rb p1 b.addr) q pre post
          (record b { free = true }) v1 h1 in
      (taken, valid, users)
]

-- binder_free_buf, called on valid buffers and returning, leaves valid buffers, merged with free
-- neighbours. The buffer was in use, and the buffers in use behind the call are the others, in the
-- same order.
binder_free_buf-IsValid :
    (k : Kernel) (rb : Rb) (p q : Proc) (a : ℕ)
    → IsValid p
    → binder_free_buf k rb p a ≡ ok q
    → IsValid q
      × (pre : List Buffer) × (b : Buffer) × (post : List Buffer) × (a ≡ b.addr)
      × (in_use p.buffers ≡ pre ++ b ∷ post)
      × (in_use q.buffers ≡ pre ++ post)
unfolding binder_free_buf free_at
binder_free_buf-IsValid k rb p q a v h = elim (Option-cases (get_buffer a p.buffers)) [
  | inl gone ↦ absurd (ground arith)
  | inr (b, e) ↦
      let (pre, post, at, absent, same) = get_buffer-split a p.buffers b e in
      let (taken, valid, users) =
        free_at_lem k rb p q pre post b v at (rw (e, binder_free_buf) at h) in
      (
        valid,
        in_use pre,
        b,
        in_use post,
        same,
        ap in_use at ∙ in_use-append pre (b ∷ post) ∙ rw taken,
        users,
      )
]
