-- ===== src/Driver/Buffer/Free.antt =====
-- binder_delete_free_buffer and binder_free_buf of driver/binder.c.
use cdroid.Driver.Kernel.{Kernel, Result, ok, bug, ◌>>=◌}
use cdroid.Driver.Rbtree.{Rb}
use cdroid.Driver.Buffer.{
  Buffer, Proc, sizeof_buffer, page_size, align4, page_mask, page_align, area_end, set_buffer,
  list_del, get_buffer, next_of, prev_of, binder_buffer_size, binder_insert_free_buffer,
}
use cdroid.Driver.Buffer.Pages.{binder_update_page_range}
use cdroid.Prelude.{
  ℕ, ◌+◌, ◌-◌, ◌%◌, ◌^◌, Bool, true, false, not, ◌&&◌, ◌||◌, Option, none, some, ◌==◌, ltb,
  if◌then◌else◌,
}

-- The pages of the first and the last byte of the header at `a`.
abbrev pub buffer_start_page : ℕ → ℕ
buffer_start_page a = page_mask a

abbrev pub buffer_end_page : ℕ → ℕ
buffer_end_page a = page_mask (a + sizeof_buffer - 1)

-- free_page_start: no neighbour has its header on the first page of the header at `a`.
abbrev pub frees_start : ℕ → ℕ → Option Buffer → Bool
frees_start a prev next = not (buffer_end_page prev == buffer_start_page a) && elim next [
  | none ↦ true
  | some n ↦ not (
      (buffer_start_page n.addr == buffer_end_page a)
      && (buffer_start_page n.addr == buffer_start_page a))
]

-- free_page_end
abbrev pub frees_end : ℕ → ℕ → Option Buffer → Bool
frees_end a prev next =
    not
      ((buffer_end_page prev == buffer_start_page a) && (buffer_end_page prev == buffer_end_page a))
    && elim next [ none ↦ true | some n ↦ not (buffer_start_page n.addr == buffer_end_page a) ]

unfoldable pub binder_delete_free_buffer : Kernel → Proc → ℕ → Result Proc
binder_delete_free_buffer k p a = elim (prev_of a p.buffers) [
  | none ↦ bug
  | some prev ↦
      let next = next_of a p.buffers in
      let start = frees_start a prev.addr next in
      let stop = frees_end a prev.addr next in
      let q = record p { buffers = list_del a p.buffers } in
      if not prev.free
      then bug
      else if start || stop
      then (binder_update_page_range k q false
            (if start then buffer_start_page a else buffer_end_page a)
            ((if stop then buffer_end_page a else buffer_start_page a) + page_size) false
          >>= λ r. ok r.1)
      else ok q
]

-- The buffer after a freed one is merged into it if it is free.
unfoldable pub merge_next : Kernel → Rb → Proc → ℕ → Result Proc
merge_next k rb p a = elim (next_of a p.buffers) [
  | none ↦ ok p
  | some n ↦
      if n.free
      then binder_delete_free_buffer k
          (record p { free_buffers = rb.rb_erase n.addr p.free_buffers }) n.addr
      else ok p
]

-- A freed buffer is merged into the one before it if that is free; the result has the address of
-- the buffer that stands for both.
unfoldable pub merge_prev : Kernel → Rb → Proc → ℕ → Result (ℕ × Proc)
merge_prev k rb p a = elim (prev_of a p.buffers) [
  | none ↦ ok (a, p)
  | some prev ↦
      if prev.free
      then (binder_delete_free_buffer k p a >>= λ q.
          ok (prev.addr, record q { free_buffers = rb.rb_erase prev.addr q.free_buffers }))
      else ok (a, p)
]

-- The BUG_ON lines of binder_free_buf.
abbrev pub freeable : Proc → Buffer → ℕ → Bool
freeable p b size =
    not b.free
    && not (ltb (binder_buffer_size p b.addr) size)
    && elim b.transaction [ none ↦ true | some _ ↦ false ]
    && not (ltb b.addr p.buffer)
    && not (ltb (area_end p) b.addr)

-- rb_erase from the allocated buffers, and `free` set.
abbrev pub release_buffer : Rb → Proc → ℕ → Proc
release_buffer rb p a = record p {
  allocated_buffers = rb.rb_erase a p.allocated_buffers;
  buffers = set_buffer a (λ b. record b { free = true }) p.buffers;
}

-- The bytes that are given back; binder_alloc_buf has aligned to 8.
abbrev pub freed_size : Buffer → ℕ
freed_size b = (align4 b.data_size + align4 b.offsets_size) % 2 ^ 64

-- The asynchronous space behind the release of a buffer, in a size_t.
abbrev pub freed_space : Proc → Buffer → ℕ
freed_space p b =
    if b.async_transaction
    then (p.free_async_space + (freed_size b + sizeof_buffer)) % 2 ^ 64
    else p.free_async_space

unfoldable pub free_at : Kernel → Rb → Proc → Buffer → Result Proc
free_at k rb p b =
    let a = b.addr in
    if not (freeable p b (freed_size b))
    then bug
    else (binder_update_page_range k (record p { free_async_space = freed_space p b }) false
          (page_align (a + sizeof_buffer)) (page_mask (a + sizeof_buffer + binder_buffer_size p a))
          false
        >>= λ r. merge_next k rb (release_buffer rb r.1 a) a >>= λ q.
            merge_prev k rb q a >>= λ r. binder_insert_free_buffer rb r.1 r.0)

-- binder_free_buf, for the address that the caller holds
unfoldable pub binder_free_buf : Kernel → Rb → Proc → ℕ → Result Proc
binder_free_buf k rb p a = elim (get_buffer a p.buffers) [ none ↦ bug | some b ↦ free_at k rb p b ]
