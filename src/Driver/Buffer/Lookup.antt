-- ===== src/Driver/Buffer/Lookup.antt =====
-- binder_buffer_lookup of driver/binder.c.
use cdroid.Driver.Buffer.Insert.{listed_taken-addrs}
use cdroid.Driver.Rbtree.{search_visits, Rb, search_by}
use cdroid.Driver.Rbtree.Holds.{Holds-search_visits, Holds-found, Holds-missed}
use cdroid.Driver.Buffer.{
  area_end, true, listed_taken, ok, Proc, sub64, sizeof_buffer, binder_buffer_lookup,
}
use cdroid.Driver.Buffer.Tiling.{addrs}
use cdroid.Driver.Buffer.Valid.{IsValid}
use cdroid.Prelude.{
  ap, ℕ, ◌+◌, ◌%◌, ◌^◌, ◌<◌, ◌≡◌, ◌↔◌, some, false, arith, count, inl, inr, Option-cases,
}

-- The address in the process of the data of the buffer at `a`.
abbrev pub user_data : Proc → ℕ → ℕ
user_data p a = (a + sizeof_buffer + p.user_buffer_offset) % 2 ^ 64

module _ (rb : Rb) (p : Proc) (v : IsValid p) where
  -- In valid buffers, for 64-bit addresses, binder_buffer_lookup finds a buffer exactly if the
  -- buffer is allocated and the address asked for is that of its data in the process.
  pub binder_buffer_lookup_iff :
      (user_ptr a : ℕ)
      → user_ptr < 2 ^ 64
      → p.user_buffer_offset < 2 ^ 64
      → a < 2 ^ 64
      → (binder_buffer_lookup p user_ptr ≡ ok (some a))
        ↔ ((0 < count a (addrs false p.buffers)) × (user_ptr ≡ user_data p a))
  unfolding binder_buffer_lookup
  binder_buffer_lookup_iff user_ptr a u o h = rw walk (λ e. found cc, λ c. ap ok (known c))
    where
      kern_ptr : ℕ
      kern_ptr = sub64 (sub64 user_ptr p.user_buffer_offset) sizeof_buffer

      walk : search_visits (λ x. x) (listed_taken p.buffers) kern_ptr p.allocated_buffers ≡ true
      walk =
          Holds-search_visits rb (λ x. x) p.allocated_buffers (addrs false p.buffers)
            v.allocated_tree (listed_taken p.buffers)
            (λ a c. listed_taken-addrs p.buffer (area_end p) p.buffers v.tiles a c) kern_ptr

      found :
          search_by (λ x. x) kern_ptr p.allocated_buffers ≡ some a
          → (0 < count a (addrs false p.buffers)) × (user_ptr ≡ user_data p a)
      found e =
          let f =
            Holds-found rb (λ x. x) p.allocated_buffers (addrs false p.buffers) v.allocated_tree
              kern_ptr a e in
          (f.1, omega (arith, f.0))

      known :
          (0 < count a (addrs false p.buffers)) × (user_ptr ≡ user_data p a)
          → search_by (λ x. x) kern_ptr p.allocated_buffers ≡ some a
      known (c, e) =
          let same : kern_ptr ≡ a = omega arith in
          elim (Option-cases (search_by (λ x. x) kern_ptr p.allocated_buffers)) [
            | inl n ↦ absurd (
                Holds-missed rb (λ x. x) p.allocated_buffers (addrs false p.buffers)
                  v.allocated_tree kern_ptr n a c (omega arith))
            | inr (x, f) ↦
                let g =
                  Holds-found rb (λ x. x) p.allocated_buffers (addrs false p.buffers)
                    v.allocated_tree kern_ptr x f in
                rw f (ground arith)
          ]
