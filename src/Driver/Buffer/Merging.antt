-- ===== src/Driver/Buffer/Merging.antt =====
-- merge_next and merge_prev, the merging of a freed buffer with its free neighbours in
-- binder_free_buf of driver/binder.c.
use cdroid.Driver.Kernel.{Kernel, ok, ◌>>=◌, >>=-eq-ok}
use cdroid.Driver.Rbtree.{Rb}
use cdroid.Driver.Rbtree.Holds.{Holds, Holds-erase}
use cdroid.Driver.Buffer.{
  Result, page_size, Buffer, Proc, area_end, list_del, next_of, prev_of, binder_buffer_size,
}
use cdroid.Driver.Buffer.Pages.{binder_update_page_range}
use cdroid.Driver.Buffer.PagesLaws.{update-only_pages}
use cdroid.Driver.Buffer.Free.{
  merge_prev, frees_start, frees_end, buffer_start_page, buffer_end_page, binder_delete_free_buffer,
  merge_next,
}
use cdroid.Driver.Buffer.Pending.{Pending, merged}
use cdroid.Driver.Buffer.Tiling.{
  in_use_end, in_use, last_free_end, last_or-split, Coalesced-append_left, prev_from-middle,
  Coalesced-append_right, last_or, addrs-append, last_free, Coalesced_weaken, Coalesced,
  Tiles-Absent, addrs, list_del-middle, next_of-middle,
}
use cdroid.Prelude.{
  count, ℕ, ◌+◌, ◌≡◌, ap, ◌∙◌, sym, subst, Bool, true, false, List, [], ◌∷◌, ◌++◌, none, some, inl,
  inr, Option-cases, arith, count-append, append_assoc, Bool-cases, ◌||◌, if◌then◌else◌,
}

-- What binder_delete_free_buffer changes.
pub delete_lem :
    (k : Kernel) (p q : Proc) (a : ℕ)
    → binder_delete_free_buffer k p a ≡ ok q
    → q ≡ record p { buffers = list_del a p.buffers; pages = q.pages }
unfolding binder_delete_free_buffer
delete_lem k p q a h = elim (Option-cases (prev_of a p.buffers)) [
  | inl gone ↦ absurd (ground arith)
  | inr (prev, e) ↦ elim (Bool-cases prev.free) [
    | inr busy ↦ absurd (ground arith)
    | inl free ↦
        releases prev (frees_start a prev.addr (next_of a p.buffers))
          (frees_end a prev.addr (next_of a p.buffers))
          (rw (e, binder_delete_free_buffer, free) at h)
  ]
]
  where
    releases :
        (prev : Buffer) (start stop : Bool)
        → (if start || stop
            then (binder_update_page_range k
                  (record p { buffers = list_del a p.buffers })
                  false
                  (if start then buffer_start_page a else buffer_end_page a)
                  ((if stop then buffer_end_page a else buffer_start_page a) + page_size)
                  false
                >>= λ r. ok r.1)
            else ok (record p { buffers = list_del a p.buffers }))
          ≡ ok q
        → q ≡ record p { buffers = list_del a p.buffers; pages = q.pages }
    releases prev start stop h' = elim (Bool-cases (start || stop)) [
      | inr neither ↦
          let same : record p { buffers = list_del a p.buffers } ≡ q = ground arith in rw (← same)
      | inl some_page ↦
          let p1 = record p { buffers = list_del a p.buffers } in
          let from = if start then buffer_start_page a else buffer_end_page a in
          let to = (if stop then buffer_end_page a else buffer_start_page a) + page_size in
          let ((r, p2), u, e) =
            >>=-eq-ok (binder_update_page_range k p1 false from to false) (λ r. ok r.1) {b = q}
              (ground arith) in
          let same : p2 ≡ q = ground arith in
          subst (λ (q : Proc). q ≡ record p { buffers = list_del a p.buffers; pages = q.pages })
            same (update-only_pages k p1 false from to false r p2 u)
    ]

module _ (k : Kernel) (rb : Rb) (b : Buffer) (kept : List Buffer) where
  erased :
      (p : Proc) (pre : List Buffer) (n : Buffer) (post : List Buffer)
      → n.free ≡ true
      → Pending kept p pre b (n ∷ post)
      → Holds
          (binder_buffer_size p)
          (rb.rb_erase n.addr p.free_buffers)
          (addrs true pre ++ addrs true post)
  erased p pre n post free v =
      Holds-erase rb (binder_buffer_size p) p.free_buffers (addrs true pre ++ addrs true (n ∷ post))
        v.free_tree n.addr (addrs true pre ++ addrs true post)
        λ a. rw free (
          omega (
            arith,
            count-append a (addrs true pre) (n.addr ∷ addrs true post),
            count-append a (addrs true pre) (addrs true post),
          ))

  -- Behind the merge with the next buffer, the next one is in use.
  pub merge_next-Pending :
      (p q : Proc) (pre post : List Buffer)
      → Pending kept p pre b post
      → merge_next k rb p b.addr ≡ ok q
      → (post' : List Buffer) × Pending kept q pre b post' × Coalesced true post'
  unfolding merge_next
  merge_next-Pending p q pre [] v h =
      let absent = Tiles-Absent b [] p.buffer (area_end p) pre v.tiles in
      let next : next_of b.addr p.buffers ≡ none =
        ap (next_of b.addr) v.listed ∙ next_of-middle b [] pre absent.0 in
      let same : p ≡ q = ground arith in ([], subst (λ q. Pending kept q pre b []) same v, tt)
  merge_next-Pending p q pre (n ∷ post) v h =
      let absent = Tiles-Absent b (n ∷ post) p.buffer (area_end p) pre v.tiles in
      let next : next_of b.addr p.buffers ≡ some n =
        ap (next_of b.addr) v.listed ∙ next_of-middle b (n ∷ post) pre absent.0 in
      elim (Bool-cases n.free) [
        | inr busy ↦
            let same : p ≡ q = ground arith in
            (n ∷ post, subst (λ q. Pending kept q pre b (n ∷ post)) same v, (busy, v.right.1))
        | inl free ↦
            let p1 = record p { free_buffers = rb.rb_erase n.addr p.free_buffers } in
            let h' : binder_delete_free_buffer k p1 n.addr ≡ ok q = ground arith in
            let changed = delete_lem k p1 q n.addr h' in
            let n_absent =
              Tiles-Absent n post p.buffer (area_end p) (pre ++ b ∷ [])
                (rw (append_assoc pre (b ∷ []) (n ∷ post)) v.tiles) in
            let del : list_del n.addr p.buffers ≡ pre ++ b ∷ post =
              ap (list_del n.addr) (v.listed ∙ sym (append_assoc pre (b ∷ []) (n ∷ post)))
              ∙ list_del-middle n post (pre ++ b ∷ []) n_absent.0
              ∙ append_assoc pre (b ∷ []) post in
            let tree = erased p pre n post free v in
            let path : q ≡ record p1 { buffers = pre ++ b ∷ post; pages = q.pages } =
              changed ∙ λ i. record p1 { buffers = del i; pages = q.pages } in
            (
              post,
              subst (λ q. Pending kept q pre b post) (sym path)
                  (merged kept rb p pre b n post (rb.rb_erase n.addr p.free_buffers) q.pages
                    v.listed v.tiles v.is_free free v.left (Coalesced_weaken n.free post v.right.1)
                    v.fits tree v.allocated_tree v.async v.area (ground (arith, v.users))),
              rw free at v.right.1,
            )
      ]

  joined :
      (p p1 : Proc) (init : List Buffer) (prev : Buffer) (post : List Buffer)
      → prev.free ≡ true
      → Pending kept p (init ++ prev ∷ []) b post
      → p1 ≡ record p { buffers = list_del b.addr p.buffers; pages = p1.pages }
      → Pending kept
          (record p1 { free_buffers = rb.rb_erase prev.addr p1.free_buffers })
          init
          prev
          post
  joined p p1 init prev post free v changed =
      let absent = Tiles-Absent b post p.buffer (area_end p) (init ++ prev ∷ []) v.tiles in
      let assoc = append_assoc init (prev ∷ []) (b ∷ post) in
      let del : list_del b.addr p.buffers ≡ init ++ prev ∷ post =
        ap (list_del b.addr) v.listed
        ∙ list_del-middle b post (init ++ prev ∷ []) absent.0
        ∙ append_assoc init (prev ∷ []) post in
      let path : p1 ≡ record p { buffers = init ++ prev ∷ post; pages = p1.pages } =
        changed ∙ λ i. record p { buffers = del i; pages = p1.pages } in
      let tree =
        Holds-erase rb (binder_buffer_size p) p.free_buffers
          (addrs true (init ++ prev ∷ []) ++ addrs true post) v.free_tree prev.addr
          (addrs true init ++ addrs true post) (counted init prev post free) in
      subst
        (λ (x : Proc).
          Pending kept (record x { free_buffers = rb.rb_erase prev.addr x.free_buffers }) init prev
            post)
        (sym path)
        (merged kept rb p init prev b post (rb.rb_erase prev.addr p.free_buffers) p1.pages
          (v.listed ∙ assoc) (rw assoc at v.tiles) free v.is_free
          (Coalesced-append_left false init (prev ∷ []) v.left) v.right (rw assoc at v.fits) tree
          (rw assoc at v.allocated_tree) (rw assoc at v.async) v.area
          (ap (λ l. l ++ in_use post) (sym (in_use_end init prev free)) ∙ v.users))
    where
      counted :
          (init : List Buffer) (prev : Buffer) (post : List Buffer)
          → prev.free ≡ true
          → (a : ℕ)
          → count a (addrs true (init ++ prev ∷ []) ++ addrs true post)
            ≡ count a (prev.addr ∷ []) + count a (addrs true init ++ addrs true post)
      counted init prev post free a =
          rw (addrs-append true init (prev ∷ []), free)
            (omega (
              arith,
              count-append a (addrs true init ++ prev.addr ∷ []) (addrs true post),
              count-append a (addrs true init) (prev.addr ∷ []),
              count-append a (addrs true init) (addrs true post),
            ))

  before_free :
      (pre init : List Buffer) (prev : Buffer)
      → Coalesced false pre
      → pre ≡ init ++ prev ∷ []
      → prev.free ≡ true
      → last_free false init ≡ false
  before_free pre init prev c e free =
      let c' = Coalesced-append_right false init (prev ∷ []) (rw e at c) in ground arith

  -- Behind the merge with the buffer before, that one is in use, or there is none.
  pub merge_prev-Pending :
      (p q : Proc) (a : ℕ) (pre post : List Buffer)
      → Pending kept p pre b post
      → Coalesced true post
      → merge_prev k rb p b.addr ≡ ok (a, q)
      → (pre' : List Buffer) × (b' : Buffer) × (a ≡ b'.addr)
        × Pending kept q pre' b' post
        × (last_free false pre' ≡ false)
  unfolding merge_prev
  merge_prev-Pending p q a pre post v c h =
      let absent = Tiles-Absent b post p.buffer (area_end p) pre v.tiles in
      let before : prev_of b.addr p.buffers ≡ last_or none pre =
        ap (prev_of b.addr) v.listed ∙ prev_from-middle b post none pre absent.0 in
      elim (last_or-split pre) [
        | inl (e, l) ↦
            let same : p ≡ q = ground arith in
            let addr : b.addr ≡ a = ground arith in
            (
              pre,
              b,
              sym addr,
              subst (λ q. Pending kept q pre b post) same v,
              ap (last_free false) e,
            )
        | inr (init, prev, e, l) ↦ elim (Bool-cases prev.free) [
          | inr busy ↦
              let same : p ≡ q = ground arith in
              let addr : b.addr ≡ a = ground arith in
              (
                pre,
                b,
                sym addr,
                subst (λ q. Pending kept q pre b post) same v,
                ap (last_free false) e ∙ last_free_end false init prev ∙ busy,
              )
          | inl free ↦
              let then_erase : Proc → Result (ℕ × Proc) = λ q.
                ok (prev.addr, record q { free_buffers = rb.rb_erase prev.addr q.free_buffers }) in
              let (p1, deleted, rest) =
                >>=-eq-ok (binder_delete_free_buffer k p b.addr) then_erase {b = (a, q)}
                  (ground arith) in
              let addr : prev.addr ≡ a = ground arith in
              let last : record p1 { free_buffers = rb.rb_erase prev.addr p1.free_buffers } ≡ q =
                ground arith in
              (
                init,
                prev,
                sym addr,
                subst (λ q. Pending kept q init prev post) last
                    (joined p p1 init prev post free (subst (λ l. Pending kept p l b post) e v)
                      (delete_lem k p p1 b.addr deleted)),
                before_free pre init prev v.left e free,
              )
        ]
      ]
