-- ===== src/Driver/Buffer/Taking.antt =====
-- take_buffer, the part of binder_alloc_buf of driver/binder.c behind the page mapping, at a free
-- buffer in the middle of the list.
use cdroid.Driver.Kernel.{ok}
use cdroid.Driver.Rbtree.{search_visits, Rb, search_by, link_by}
use cdroid.Driver.Buffer.{
  listed_free, link_visits, listed_taken, sub64, Buffer, Proc, sizeof_buffer, get_buffer,
  binder_buffer_size,
}
use cdroid.Driver.Buffer.Insert.{insert_allocated, insert_free}
use cdroid.Driver.Buffer.Alloc.{take_buffer, new_header}
use cdroid.Driver.Buffer.Tiling.{
  get_buffer-middle, Absent, set_buffer-middle, list_add-middle, get_buffer_skip,
}
use cdroid.Prelude.{
  ℕ, ◌+◌, ◌≡◌, ◌≢◌, refl, ◌∙◌, Bool, true, false, List, ◌∷◌, ◌++◌, none, some, arith, ◌==◌,
  if◌then◌else◌,
}

-- The allocated buffer.
abbrev pub taken : Buffer → ℕ → ℕ → Bool → Buffer
taken b data_size offsets_size is_async = record b {
  free = false;
  data_size = data_size;
  offsets_size = offsets_size;
  async_transaction = is_async;
}

eq_self : (n : ℕ) → (n == n) ≡ true
eq_self n = ground arith

eq_ne : (m n : ℕ) → m ≢ n → (m == n) ≡ false
eq_ne m n h = ground arith

module _ (rb : Rb) (p0 : Proc) (pre post : List Buffer) (b : Buffer) (n : Absent b.addr pre)
    (size data_size offsets_size : ℕ) (is_async : Bool) where
  abbrev pub before : Proc
  before = record p0 { buffers = pre ++ b ∷ post }

  abbrev pub space : ℕ
  space = if is_async then sub64 p0.free_async_space (size + sizeof_buffer) else p0.free_async_space

  abbrev pub new : Buffer
  new = new_header p0 (b.addr + sizeof_buffer + size)

  -- The process after an allocation with no rest.
  abbrev pub whole_taken : Proc
  whole_taken = record p0 {
    buffers = pre ++ taken b data_size offsets_size is_async ∷ post;
    free_buffers = rb.rb_erase b.addr p0.free_buffers;
    allocated_buffers = rb.insert_color (link_by (λ x. x) b.addr b.addr p0.allocated_buffers);
    free_async_space = space;
  }

  abbrev pub held : Buffer
  held = record b { free = false }

  abbrev pub fill : Buffer → Buffer
  fill b = record b {
    data_size = data_size;
    offsets_size = offsets_size;
    async_transaction = is_async;
  }

  abbrev pub unlinked : Proc
  unlinked = record p0 {
    buffers = pre ++ held ∷ post;
    free_buffers = rb.rb_erase b.addr p0.free_buffers;
  }

  -- With the new header in the list.
  abbrev pub divided : Proc
  divided = record p0 {
    buffers = pre ++ held ∷ new ∷ post;
    free_buffers = rb.rb_erase b.addr p0.free_buffers;
    allocated_buffers = rb.insert_color (link_by (λ x. x) b.addr b.addr p0.allocated_buffers);
  }

  -- After an allocation that leaves a rest.
  abbrev pub split_taken : Proc
  split_taken = record divided {
    buffers = pre ++ taken b data_size offsets_size is_async ∷ new ∷ post;
    free_buffers = rb.insert_color (
        link_by (binder_buffer_size divided) (binder_buffer_size divided new.addr) new.addr
          (rb.rb_erase b.addr p0.free_buffers));
    free_async_space = space;
  }

  get_new : Absent new.addr pre → get_buffer new.addr (pre ++ held ∷ new ∷ post) ≡ some new
  get_new m = get_buffer_skip new.addr pre (held ∷ new ∷ post) m ∙ ground arith

  get_held : get_buffer b.addr (pre ++ held ∷ post) ≡ some held
  get_held = get_buffer-middle held post pre n

  module _ (unlisted : search_by (λ x. x) b.addr p0.allocated_buffers ≡ none)
      (walk_allocated : search_visits
          (λ x. x)
          (listed_taken (pre ++ held ∷ post))
          b.addr
          p0.allocated_buffers
        ≡ true) where
    pub take_whole :
        take_buffer rb before b.addr size size data_size offsets_size is_async ≡ ok whole_taken
    unfolding take_buffer
    take_whole = rw (set_buffer-middle b post (λ b. record b { free = false }) pre n) (
        rw (insert_allocated rb unlinked b.addr held get_held refl walk_allocated unlisted)
          (rw (eq_self size) (rw (set_buffer-middle held post fill pre n) refl)))

    pub take_split :
        (kept : ℕ)
        → kept ≢ size
        → Absent new.addr pre
        → link_visits
            (binder_buffer_size divided)
            (listed_free (pre ++ held ∷ new ∷ post))
            (binder_buffer_size divided new.addr)
            (rb.rb_erase b.addr p0.free_buffers)
          ≡ true
        → take_buffer rb before b.addr kept size data_size offsets_size is_async ≡ ok split_taken
    unfolding take_buffer
    take_split kept ne m walk =
        rw (set_buffer-middle b post (λ b. record b { free = false }) pre n) (
          rw (insert_allocated rb unlinked b.addr held get_held refl walk_allocated unlisted) (
            rw (eq_ne kept size ne) (
              rw (list_add-middle held post new pre n) (
                rw (insert_free rb divided new.addr new (get_new m) refl walk)
                  (rw (set_buffer-middle held (new ∷ post) fill pre n) refl)))))
