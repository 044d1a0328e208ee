-- ===== src/Driver/Buffer/Pending.antt =====
-- The buffers within binder_free_buf of driver/binder.c: one free buffer is in the list and not yet
-- in the tree of free ones.
use cdroid.Driver.Buffer.Insert.{listed_free-addrs}
use cdroid.Driver.Rbtree.{link_visits, Rb, Tree}
use cdroid.Driver.Rbtree.Holds.{Holds-link_visits, Holds, Holds-rekey}
use cdroid.Driver.Buffer.{listed_free, Buffer, Proc, area_end, size_in, binder_buffer_size}
use cdroid.Driver.Buffer.Tiling.{
  in_use, Tiles, Coalesced, addrs, last_free, Tiles-append, Tiles-append_left, Tiles-append_right,
  Tiles-Absent, Coalesced-append, addrs-append, size_in_replace, uncounted,
}
use cdroid.Driver.Buffer.Valid.{
  Fits, async_used, IsValid, async_used-append, Fits-append, Fits-append_left, Fits-append_right,
}
use cdroid.Prelude.{
  subst, ◌≤◌, ℕ, ◌+◌, ◌/◌, ◌^◌, ◌<◌, ◌≡◌, ◌≢◌, refl, ap, ◌∙◌, sym, Bool, true, false, List, [], ◌∷◌,
  ◌++◌, arith, count, append_assoc, All-append_left, count-append,
}

pub record Pending (kept : List Buffer) (p : Proc) (pre : List Buffer) (b : Buffer)
    (post : List Buffer) : Type 0 where
  pub listed : p.buffers ≡ pre ++ b ∷ post
  pub tiles : Tiles p.buffer (area_end p) (pre ++ b ∷ post)
  pub is_free : b.free ≡ true
  pub left : Coalesced false pre
  pub right : Coalesced false post
  pub fits : Fits (area_end p) (pre ++ b ∷ post)
  pub free_tree : Holds (binder_buffer_size p) p.free_buffers (addrs true pre ++ addrs true post)
  pub allocated_tree : Holds (λ x. x) p.allocated_buffers (addrs false (pre ++ b ∷ post))
  pub async : p.free_async_space + async_used (pre ++ b ∷ post) ≤ p.buffer_size / 2
  pub area : area_end p < 2 ^ 64
  pub users : in_use pre ++ in_use post ≡ kept

module _ (kept : List Buffer) (rb : Rb) (p : Proc) (pre : List Buffer) (b : Buffer)
    (post : List Buffer) (v : Pending kept p pre b post) where
  pub count_free :
      (a : ℕ)
      → count a (addrs true (pre ++ b ∷ post))
        ≡ count a (b.addr ∷ []) + count a (addrs true pre ++ addrs true post)
  count_free a =
      rw (addrs-append true pre (b ∷ post), v.is_free)
        (omega (
          arith,
          count-append a (addrs true pre) (b.addr ∷ addrs true post),
          count-append a (addrs true pre) (addrs true post),
        ))

  -- With no free neighbour the buffer is linked, and all is valid again.
  pub Pending-insert :
      Coalesced (last_free false pre) (b ∷ post)
      → (t : Tree) → Holds (binder_buffer_size p) t (addrs true p.buffers)
      → IsValid (record p { free_buffers = t })
  unfolding binder_buffer_size
  Pending-insert c t h = record {
    tiles = rw v.listed v.tiles;
    coalesced = rw v.listed (Coalesced-append false pre (b ∷ post) v.left c);
    fits = rw v.listed v.fits;
    free_tree = h;
    allocated_tree = rw v.listed v.allocated_tree;
    async = rw v.listed v.async;
    area = v.area;
  }

  -- The insertion of the buffer meets free buffers only.
  pub Pending_walk :
      link_visits
        (binder_buffer_size p)
        (listed_free p.buffers)
        (binder_buffer_size p b.addr)
        p.free_buffers
      ≡ true
  Pending_walk =
      Holds-link_visits rb (binder_buffer_size p) p.free_buffers (addrs true pre ++ addrs true post)
        v.free_tree (listed_free p.buffers)
        (λ a c.
          listed_free-addrs p.buffer (area_end p) p.buffers
            (subst (Tiles p.buffer (area_end p)) (sym v.listed) v.tiles) a
            (omega (arith, c, count_free a, ap (λ bs. count a (addrs true bs)) v.listed)))
        (binder_buffer_size p b.addr)

-- Two free neighbours become one: the entry of the second is dropped, neither is in the tree.
module _ (kept : List Buffer) (rb : Rb) (p : Proc) (pre : List Buffer) (x y : Buffer)
    (post : List Buffer) where
  abbrev stop : ℕ
  stop = area_end p

  pub merged :
      (t : Tree) (pages : ℕ → Bool)
      → p.buffers ≡ pre ++ x ∷ y ∷ post
      → Tiles p.buffer stop (pre ++ x ∷ y ∷ post)
      → x.free ≡ true
      → y.free ≡ true
      → Coalesced false pre
      → Coalesced false post
      → Fits stop (pre ++ x ∷ y ∷ post)
      → Holds (binder_buffer_size p) t (addrs true pre ++ addrs true post)
      → Holds (λ x. x) p.allocated_buffers (addrs false (pre ++ x ∷ y ∷ post))
      → p.free_async_space + async_used (pre ++ x ∷ y ∷ post) ≤ p.buffer_size / 2
      → area_end p < 2 ^ 64
      → in_use pre ++ in_use post ≡ kept
      → Pending kept
          (record p { buffers = pre ++ x ∷ post; free_buffers = t; pages = pages })
          pre
          x
          post
  unfolding binder_buffer_size
  merged t pages listed tiles x_free y_free left right fits tree allocated async area users =
      let before = Tiles-append_left stop p.buffer pre (x ∷ y ∷ post) tiles in
      let behind = Tiles-append_right stop p.buffer pre (x ∷ y ∷ post) tiles in
      record {
        listed = refl;
        tiles =
            Tiles-append stop p.buffer pre (x ∷ post) before
              (refl, omega (arith, behind.1, behind.2.1), behind.2.2);
        is_free = x_free;
        left = left;
        right = right;
        fits =
            Fits-append stop pre (x ∷ post) (Fits-append_left stop pre (x ∷ y ∷ post) fits)
              (λ f. absurd (ground arith), (Fits-append_right stop pre (x ∷ y ∷ post) fits).1.1);
        free_tree =
            Holds-rekey rb (binder_buffer_size p) t (addrs true pre ++ addrs true post) tree
              (λ a. size_in stop a (pre ++ x ∷ post))
              (λ a c.
                let x_absent = Tiles-Absent x (y ∷ post) p.buffer stop pre tiles in
                let y_absent =
                  Tiles-Absent y post p.buffer stop (pre ++ x ∷ [])
                    (rw (append_assoc pre (x ∷ []) (y ∷ post)) tiles) in
                let not_x = uncounted pre post a x.addr x_absent.0 x_absent.1.1 c in
                let not_y =
                  uncounted pre post a y.addr
                    (All-append_left (λ z. z.addr ≢ y.addr) pre (x ∷ []) y_absent.0) y_absent.1 c in
                size_in_replace stop a pre (x ∷ post) (x ∷ y ∷ post) refl (ground arith)
                ∙ ap (size_in stop a) (sym listed));
        allocated_tree =
            rw (addrs-append false pre (x ∷ post), x_free)
              (rw (addrs-append false pre (x ∷ y ∷ post), x_free, y_free) at allocated);
        async =
            ground (
              arith,
              async,
              async_used-append pre (x ∷ post),
              async_used-append pre (x ∷ y ∷ post),
            );
        area = area;
        users = users;
      }
