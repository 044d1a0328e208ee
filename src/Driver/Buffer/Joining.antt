-- ===== src/Driver/Buffer/Joining.antt =====
-- The merging of a freed buffer in binder_free_buf of driver/binder.c reaches no BUG, and keeps the
-- pages that the buffers need.
use cdroid.Driver.Buffer.Deleting.{delete_ok}
use cdroid.Driver.Buffer.Pending.{Pending_walk, Pending}
use cdroid.Driver.Buffer.Insert.{insert_free}
use cdroid.Driver.Buffer.Merging.{merge_next-Pending, merge_prev-Pending}
use cdroid.Driver.Buffer.FreeLaws.{merging}
use cdroid.Driver.Buffer.Paged.{IsPaged}
use cdroid.Driver.Buffer.Free.{binder_delete_free_buffer, merge_next, merge_prev}
use cdroid.Driver.Buffer.Tiling.{
  get_buffer-middle, last_or-split, Tiles-Absent, last_or, next_of-middle, prev_from-middle,
}
use cdroid.Driver.Buffer.{
  Tree, Buffer, Proc, List, ok, area_end, next_of, prev_of, binder_buffer_size, get_buffer,
  binder_insert_free_buffer,
}
use cdroid.Driver.Kernel.{Kernel}
use cdroid.Driver.Rbtree.{link_by, Rb}
use cdroid.Prelude.{
  ℕ, ◌≡◌, ◌∷◌, [], ◌++◌, Bool-cases, true, inl, inr, refl, some, none, ap, ◌∙◌, append_assoc,
}

-- The trees do not matter to the pages.
IsPaged-free_buffers : (p : Proc) (t : Tree) → IsPaged p → IsPaged (record p { free_buffers = t })
IsPaged-free_buffers p t w = record { aligned = w.aligned; whole = w.whole; paged = w.paged }

module _ (k : Kernel) (rb : Rb) (kept : List Buffer) (p : Proc) (pre : List Buffer) (b : Buffer)
    (w : IsPaged p) where
  merge_next_free :
      (n : Buffer) (q : Proc)
      → next_of b.addr p.buffers ≡ some n
      → n.free ≡ true
      → binder_delete_free_buffer k
          (record p { free_buffers = rb.rb_erase n.addr p.free_buffers })
          n.addr
        ≡ ok q
      → merge_next k rb p b.addr ≡ ok q
  unfolding merge_next
  merge_next_free n q next free e = rw (next, merge_next, free) e

  merge_prev_free :
      (prev : Buffer) (q : Proc)
      → prev_of b.addr p.buffers ≡ some prev
      → prev.free ≡ true
      → binder_delete_free_buffer k p b.addr ≡ ok q
      → merge_prev k rb p b.addr
        ≡ ok (prev.addr, record q { free_buffers = rb.rb_erase prev.addr q.free_buffers })
  unfolding merge_prev
  merge_prev_free prev q before free e = rw (before, merge_prev, free, e) refl

  merge_next_ok :
      (post : List Buffer)
      → Pending kept p pre b post
      → (q : Proc) × (merge_next k rb p b.addr ≡ ok q) × IsPaged q
  unfolding merge_next
  merge_next_ok [] v =
      let absent = Tiles-Absent b [] p.buffer (area_end p) pre v.tiles in
      let next : next_of b.addr p.buffers ≡ none =
        ap (next_of b.addr) v.listed ∙ next_of-middle b [] pre absent.0 in
      (p, rw (next, merge_next) refl, w)
  merge_next_ok (n ∷ post) v =
      let absent = Tiles-Absent b (n ∷ post) p.buffer (area_end p) pre v.tiles in
      let next : next_of b.addr p.buffers ≡ some n =
        ap (next_of b.addr) v.listed ∙ next_of-middle b (n ∷ post) pre absent.0 in
      elim (Bool-cases n.free) [
        | inr busy ↦ (p, rw (next, merge_next, busy) refl, w)
        | inl free ↦
            let t = rb.rb_erase n.addr p.free_buffers in
            let (q, e, w') =
              delete_ok k (record p { free_buffers = t }) pre post b n v.listed v.tiles v.is_free
                free (IsPaged-free_buffers p t w) in
            (q, merge_next_free n q next free e, w')
      ]

  merge_prev_ok :
      (post : List Buffer)
      → Pending kept p pre b post
      → (a : ℕ) × (q : Proc) × (merge_prev k rb p b.addr ≡ ok (a, q)) × IsPaged q
  unfolding merge_prev
  merge_prev_ok post v =
      let absent = Tiles-Absent b post p.buffer (area_end p) pre v.tiles in
      let before : prev_of b.addr p.buffers ≡ last_or none pre =
        ap (prev_of b.addr) v.listed ∙ prev_from-middle b post none pre absent.0 in
      elim (last_or-split pre) [
        | inl (e, l) ↦ (b.addr, p, rw (before ∙ l, merge_prev) refl, w)
        | inr (init, prev, e, l) ↦ elim (Bool-cases prev.free) [
          | inr busy ↦ (b.addr, p, rw (before ∙ l, merge_prev, busy) refl, w)
          | inl free ↦
              let assoc = append_assoc init (prev ∷ []) (b ∷ post) in
              let listed = v.listed ∙ ap (λ l. l ++ b ∷ post) e ∙ assoc in
              let tiles = rw assoc at (rw e at v.tiles) in
              let (q, e', w') = delete_ok k p init post prev b listed tiles free v.is_free w in
              (
                prev.addr,
                record q { free_buffers = rb.rb_erase prev.addr q.free_buffers },
                merge_prev_free prev q (before ∙ l) free e',
                IsPaged-free_buffers q (rb.rb_erase prev.addr q.free_buffers) w',
              )
        ]
      ]

-- The last step links the buffer.
insert_ok :
    (rb : Rb) (kept : List Buffer) (p : Proc) (pre post : List Buffer) (b : Buffer)
    → Pending kept p pre b post
    → IsPaged p
    → (q : Proc) × (binder_insert_free_buffer rb p b.addr ≡ ok q) × IsPaged q
insert_ok rb kept p pre post b v w =
    let absent = Tiles-Absent b post p.buffer (area_end p) pre v.tiles in
    let found = ap (get_buffer b.addr) v.listed ∙ get_buffer-middle b post pre absent.0 in
    let key = binder_buffer_size p in
    let t = rb.insert_color (link_by key (key b.addr) b.addr p.free_buffers) in
    (
      record p { free_buffers = t },
      insert_free rb p b.addr b found v.is_free (Pending_walk kept rb p pre b post v),
      IsPaged-free_buffers p t w,
    )

merging_is :
    (k : Kernel) (rb : Rb) (x y a : ℕ) (p p2 p3 q : Proc)
    → merge_next k rb p x ≡ ok p2
    → merge_prev k rb p2 x ≡ ok (a, p3)
    → a ≡ y
    → binder_insert_free_buffer rb p3 y ≡ ok q
    → merging k rb x p ≡ ok q
merging_is k rb x y a p p2 p3 q m m' e i = rw (m, m', e) i

pub merging_ok :
    (k : Kernel) (rb : Rb) (kept : List Buffer) (p : Proc) (pre post : List Buffer) (b : Buffer)
    → Pending kept p pre b post
    → IsPaged p
    → (q : Proc) × (merging k rb b.addr p ≡ ok q) × IsPaged q
merging_ok k rb kept p pre post b v w =
    let (p2, m, w2) = merge_next_ok k rb kept p pre b w post v in
    let (post', v2, c) = merge_next-Pending k rb b kept p p2 pre post v m in
    let (a, p3, m', w3) = merge_prev_ok k rb kept p2 pre b w2 post' v2 in
    let (pre', b', e, v3, l) = merge_prev-Pending k rb b kept p2 p3 a pre post' v2 c m' in
    let (q, i, w4) = insert_ok rb kept p3 pre' post' b' v3 w3 in
    (q, merging_is k rb b.addr b'.addr a p p2 p3 q m m' e i, w4)
