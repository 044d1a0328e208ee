-- ===== src/Driver/Buffer/Alloc.antt =====
-- binder_alloc_buf of driver/binder.c.
use cdroid.Driver.Kernel.{Kernel, Result, ok, bug, ◌>>=◌}
use cdroid.Driver.Rbtree.{Tree, leaf, node, Rb, search_visits}
use cdroid.Driver.Buffer.{
  sub64, Buffer, Proc, listed_free, sizeof_buffer, align, page_mask, page_align, set_buffer,
  list_add, binder_buffer_size, binder_insert_free_buffer, binder_insert_allocated_buffer,
}
use cdroid.Driver.Buffer.Pages.{binder_update_page_range}
use cdroid.Prelude.{
  ℕ, ◌+◌, ◌%◌, ◌^◌, min, Bool, true, false, not, ◌&&◌, ◌||◌, Option, none, some, ◌==◌, ltb, leb,
  if◌then◌else◌,
}

-- The size asked for, in a size_t.
abbrev pub request_size : ℕ → ℕ → ℕ
request_size data_size offsets_size = (align data_size + align offsets_size) % 2 ^ 64

-- The walk for the best fit, with the best node so far; true marks an exact one (`n` is not null). It
-- goes the way of a search for the size; its BUG_ON for each node stands before it in
-- binder_alloc_buf.
unfoldable pub best_fit : (ℕ → ℕ) → ℕ → Option (ℕ × Bool) → Tree → Option (ℕ × Bool)
best_fit size_of size best leaf = best
best_fit size_of size best (node l x r) =
    let smaller = best_fit size_of size (some (x, false)) l in
    let larger = best_fit size_of size best r in
    if ltb size (size_of x)
    then smaller
    else if ltb (size_of x) size
    then larger
    else some (x, true)

-- What a new free header holds: `free` is written, the rest is what was in memory.
abbrev pub new_header : Proc → ℕ → Buffer
new_header p a = record (p.stale a) { addr = a; free = true }

-- The bytes that the buffer keeps, its own and the header of a new one behind them.
abbrev pub kept_size : ℕ → ℕ → Bool → ℕ
kept_size whole size exact =
    if exact
    then whole
    else if leb whole (size + sizeof_buffer + 4)
    then size
    else size + sizeof_buffer

-- From rb_erase on, with the pages there.
unfoldable pub take_buffer : Rb → Proc → ℕ → ℕ → ℕ → ℕ → ℕ → Bool → Result Proc
take_buffer rb p a kept size data_size offsets_size is_async =
    binder_insert_allocated_buffer rb
      (record p {
        free_buffers = rb.rb_erase a p.free_buffers;
        buffers = set_buffer a (λ b. record b { free = false }) p.buffers;
      })
      a
    >>= (λ q.
        if kept == size
        then ok q
        else binder_insert_free_buffer rb
            (record q { buffers = list_add (new_header q (a + sizeof_buffer + size)) a q.buffers })
            (a + sizeof_buffer + size))
    >>= λ q. ok (record q {
      buffers =
          set_buffer a
            (λ b. record b {
              data_size = data_size;
              offsets_size = offsets_size;
              async_transaction = is_async;
            })
            q.buffers;
      free_async_space =
          if is_async then sub64 q.free_async_space (size + sizeof_buffer) else q.free_async_space;
    })

-- With the free buffer at `a` chosen.
unfoldable pub alloc_at :
    Kernel → Rb → Proc → ℕ × Bool → ℕ → ℕ → ℕ → Bool → Result (Option ℕ × Proc)
alloc_at k rb p (a, exact) size data_size offsets_size is_async =
    let whole = binder_buffer_size p a in
    let has_page_addr = page_mask (a + sizeof_buffer + whole) in
    let kept = kept_size whole size exact in
    let end_page_addr = min (page_align (a + sizeof_buffer + kept)) has_page_addr in
    binder_update_page_range k p true (page_align (a + sizeof_buffer)) end_page_addr false >>= λ r.
    if not r.0
    then ok (none, r.1)
    else (take_buffer rb r.1 a kept size data_size offsets_size is_async >>= λ q. ok (some a, q))

-- A null result leaves the process as it is, but for what the pages went through.
unfoldable pub binder_alloc_buf : Kernel → Rb → Proc → ℕ → ℕ → Bool → Result (Option ℕ × Proc)
binder_alloc_buf k rb p data_size offsets_size is_async =
    let size = request_size data_size offsets_size in
    if not p.vma
    then ok (none, p)
    else if ltb size data_size || ltb size offsets_size
    then ok (none, p)
    else if is_async && ltb p.free_async_space ((size + sizeof_buffer) % 2 ^ 64)
    then ok (none, p)
    else if not (search_visits (binder_buffer_size p) (listed_free p.buffers) size p.free_buffers)
    then bug
    else elim (best_fit (binder_buffer_size p) size none p.free_buffers) [
      | none ↦ ok (none, p)
      | some fit ↦ alloc_at k rb p fit size data_size offsets_size is_async
    ]
