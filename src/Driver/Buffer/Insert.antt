-- ===== src/Driver/Buffer/Insert.antt =====
-- The insertions of driver/binder.c into the two trees of buffers, where they hit no BUG().
use cdroid.Driver.Buffer.Tiling.{get_buffer-middle, Tiles-Absent, addrs-split, addrs, Tiles}
use cdroid.Driver.Kernel.{ok}
use cdroid.Driver.Rbtree.{Rb, search_by, link_by}
use cdroid.Driver.Buffer.{
  not, listed_taken, search_visits, listed_free, link_visits, List, false, Buffer, Proc, get_buffer,
  binder_buffer_size, binder_insert_free_buffer, binder_insert_allocated_buffer,
}
use cdroid.Prelude.{◌∙◌, ap, subst, count, refl, ◌<◌, ℕ, ◌≡◌, true, some, none}

-- The walks that meet buffers of the one kind only.
module _ (lo hi : ℕ) (bs : List Buffer) (t : Tiles lo hi bs) (a : ℕ) where
  pub listed_free-addrs : 0 < count a (addrs true bs) → listed_free bs a ≡ true
  listed_free-addrs c =
      let (pre, b, post, e, same, f) = addrs-split a true bs c in
      let absent = Tiles-Absent b post lo hi pre (subst (Tiles lo hi) e t) in
      let got : get_buffer a bs ≡ some b =
        ap (λ x. get_buffer x bs) same
        ∙ ap (get_buffer b.addr) e
        ∙ get_buffer-middle b post pre absent.0 in
      rw (listed_free, got) f

  pub listed_taken-addrs : 0 < count a (addrs false bs) → listed_taken bs a ≡ true
  listed_taken-addrs c =
      let (pre, b, post, e, same, f) = addrs-split a false bs c in
      let absent = Tiles-Absent b post lo hi pre (subst (Tiles lo hi) e t) in
      let got : get_buffer a bs ≡ some b =
        ap (λ x. get_buffer x bs) same
        ∙ ap (get_buffer b.addr) e
        ∙ get_buffer-middle b post pre absent.0 in
      rw (listed_taken, got) (ap not f)

module _ (rb : Rb) (q : Proc) (a : ℕ) (b : Buffer) (there : get_buffer a q.buffers ≡ some b) where
  pub insert_allocated :
      b.free ≡ false
      → search_visits (λ x. x) (listed_taken q.buffers) a q.allocated_buffers ≡ true
      → search_by (λ x. x) a q.allocated_buffers ≡ none
      → binder_insert_allocated_buffer rb q a
        ≡ ok (record q {
          allocated_buffers = rb.insert_color (link_by (λ x. x) a a q.allocated_buffers);
        })
  unfolding binder_insert_allocated_buffer
  insert_allocated f w h = rw (there, binder_insert_allocated_buffer) (rw (f, w, h) refl)

  pub insert_free :
      b.free ≡ true
      → link_visits
          (binder_buffer_size q)
          (listed_free q.buffers)
          (binder_buffer_size q a)
          q.free_buffers
        ≡ true
      → binder_insert_free_buffer rb q a
        ≡ ok (record q {
          free_buffers =
              rb.insert_color
                (link_by (binder_buffer_size q) (binder_buffer_size q a) a q.free_buffers);
        })
  unfolding binder_insert_free_buffer
  insert_free f w = rw (there, binder_insert_free_buffer) (rw (f, w) refl)
