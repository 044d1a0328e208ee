-- ===== src/Driver/Tests/BufferTests.antt =====
-- Allocation, release, lookup and mapping of buffers at concrete inputs.
use cdroid.Driver.Buffer.Returning.{binder_alloc_buf-returns}
use cdroid.Driver.Buffer.Paged.{IsPaged}
use cdroid.Driver.Buffer.Freeing.{binder_free_buf-returns}
use cdroid.Driver.Buffer.Lookup.{binder_buffer_lookup_iff, user_data}
use cdroid.Driver.Buffer.PagesLaws.{update_pages_free, update_pages_allocate}
use cdroid.Driver.Buffer.Tiling.{in_use, addrs}
use cdroid.Driver.Rbtree.{link_visits, search_visits, link_by, search_by}
use cdroid.Driver.Buffer.AllocLaws.{binder_alloc_buf-IsValid, binder_alloc_buf_best, Outcome}
use cdroid.Driver.Buffer.Pages.{free_range, map_range, put, binder_update_page_range}
use cdroid.Driver.Buffer.Mmap.{binder_mmap-Mapped, Mapped, binder_mmap, Errno}
use cdroid.Driver.Buffer.Valid.{IsValid}
use cdroid.Prelude.{
  [], subst, ap, sym, ◌∙◌, ◌∷◌, refl, ◌*◌, ◌↔◌, ◌+◌, false, arith, count, true, some, ◌≤◌, ◌<◌, ℕ,
  Option, ◌≡◌,
}
use cdroid.Driver.Tests.Sample.{
  free_header, mapped-IsPaged, opened-IsUnmapped, area, mapped-IsValid, opened, plain, kernel,
  mapped,
}
use cdroid.Driver.Buffer.Free.{
  free_at, merge_prev, merge_next, binder_delete_free_buffer, binder_free_buf,
}
use cdroid.Driver.Kernel.{Result, ok, bug}
use cdroid.Driver.Buffer.{
  binder_insert_free_buffer, Buffer, binder_insert_allocated_buffer, binder_buffer_lookup, Proc,
  binder_buffer_size,
}
use cdroid.Driver.Buffer.Alloc.{request_size, binder_alloc_buf, alloc_at, take_buffer, best_fit}

abbrev proc_of : Result (Option ℕ × Proc) → Proc
proc_of (ok r) = r.1
proc_of bug = mapped

abbrev one_taken : Proc
one_taken = proc_of (binder_alloc_buf kernel plain mapped 100 16 false)

takes_first : binder_alloc_buf kernel plain mapped 100 16 false ≡ ok (some 65536, one_taken)
unfolding binder_alloc_buf best_fit binder_buffer_size alloc_at binder_update_page_range take_buffer
    binder_insert_allocated_buffer search_by search_visits link_visits binder_insert_free_buffer
takes_first = refl

binder_alloc_buf-returns_example :
    (r : Option ℕ) × (q : Proc) × (binder_alloc_buf kernel plain mapped 100 16 false ≡ ok (r, q))
    × IsValid q
    × IsPaged q
    × Outcome mapped r q 100 16 false
binder_alloc_buf-returns_example =
    binder_alloc_buf-returns kernel plain mapped 100 16 false mapped-IsValid mapped-IsPaged

one_free : 0 < count 65536 (addrs true mapped.buffers)
one_free = omega arith

room : request_size 100 16 ≤ binder_buffer_size mapped 65536
unfolding binder_buffer_size
room = omega arith

binder_alloc_buf_best_example : binder_buffer_size mapped 65536 ≤ binder_buffer_size mapped 65536
binder_alloc_buf_best_example =
    binder_alloc_buf_best kernel plain mapped 100 16 false mapped-IsValid 65536 one_taken
      takes_first 65536 one_free room

one_taken-IsValid : IsValid one_taken
one_taken-IsValid =
    (binder_alloc_buf-IsValid kernel plain mapped 100 16 false mapped-IsValid (some 65536) one_taken
      takes_first).0

abbrev state : Result Proc → Proc
state (ok p) = p
state bug = mapped

abbrev one_freed : Proc
one_freed = state (binder_free_buf kernel plain one_taken 65536)

frees_first : binder_free_buf kernel plain one_taken 65536 ≡ ok one_freed
unfolding binder_free_buf binder_delete_free_buffer merge_next merge_prev free_at link_by
    binder_alloc_buf best_fit binder_buffer_size alloc_at binder_update_page_range take_buffer
    binder_insert_allocated_buffer search_by search_visits link_visits binder_insert_free_buffer
frees_first = refl

one_taken-IsPaged : IsPaged one_taken
one_taken-IsPaged =
    let (r, q, e, valid, paged, what) = binder_alloc_buf-returns_example in
    subst IsPaged (ap proc_of (sym e ∙ takes_first)) paged

abbrev the_taken : Buffer
the_taken = record (free_header 65536) { free = false; data_size = 100; offsets_size = 16 }

binder_free_buf-returns_example :
    (q : Proc) × (binder_free_buf kernel plain one_taken 65536 ≡ ok q)
    × IsValid q
    × IsPaged q
    × (in_use q.buffers ≡ [])
    × (q.free_async_space ≡ 4096)
unfolding binder_alloc_buf best_fit binder_buffer_size alloc_at binder_update_page_range take_buffer
    binder_insert_allocated_buffer search_by search_visits link_visits binder_insert_free_buffer
binder_free_buf-returns_example =
    binder_free_buf-returns kernel plain one_taken [] (free_header 65736 ∷ []) the_taken
      one_taken-IsValid one_taken-IsPaged refl refl refl

-- The pages 1 and 2 of the area.
abbrev two_pages : Proc
two_pages = record mapped { pages = λ i. put (put mapped.pages 1 true) 2 true i }

maps_two :
    binder_update_page_range kernel mapped true (65536 + 1 * 4096) (65536 + 3 * 4096) false
    ≡ ok (true, two_pages)
unfolding binder_update_page_range map_range
maps_two = refl

update_pages_allocate_example : two_pages.pages 2 ≡ true
update_pages_allocate_example =
    update_pages_allocate kernel mapped 1 2 false true two_pages maps_two 2

unmaps_two :
    binder_update_page_range kernel two_pages false (65536 + 1 * 4096) (65536 + 3 * 4096) false
    ≡ ok (false, record two_pages { pages = λ i. put (put two_pages.pages 2 false) 1 false i })
unfolding binder_update_page_range free_range
unmaps_two = refl

binder_mmap-Mapped_example :
    (e : Errno) × (q : Proc) × (binder_mmap kernel plain opened true area (some 65536) true
      ≡ ok (e, q))
    × Mapped e opened q
binder_mmap-Mapped_example =
    binder_mmap-Mapped kernel plain opened area opened-IsUnmapped (omega arith) refl refl true
      (some 65536) true (λ at e. (ground arith, ground arith))

binder_buffer_lookup_iff_example :
    (binder_buffer_lookup one_taken 1114192 ≡ ok (some 65536))
    ↔ ((0 < count 65536 (addrs false one_taken.buffers)) × (1114192 ≡ user_data one_taken 65536))
unfolding binder_alloc_buf best_fit binder_buffer_size alloc_at binder_update_page_range take_buffer
    binder_insert_allocated_buffer search_by search_visits link_visits binder_insert_free_buffer
binder_buffer_lookup_iff_example =
    binder_buffer_lookup_iff plain one_taken one_taken-IsValid 1114192 65536 (omega arith)
      (omega arith) (omega arith)

update_pages_free_example : put (put two_pages.pages 2 false) 1 false 2 ≡ false
update_pages_free_example =
    update_pages_free kernel two_pages 1 2 false false
      (record two_pages { pages = λ i. put (put two_pages.pages 2 false) 1 false i }) unmaps_two 2
