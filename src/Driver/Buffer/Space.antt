-- ===== src/Driver/Buffer/Space.antt =====
-- The asynchronous space behind binder_free_buf of driver/binder.c.
use cdroid.Driver.Buffer.Pages.{binder_update_page_range}
use cdroid.Driver.Buffer.Valid.{
  async_used-append, async_used, Fits-append_right, Fits, used, IsValid,
}
use cdroid.Prelude.{
  ap, if◌then◌else◌, ◌*◌, ◌∷◌, inl, inr, ◌++◌, ◌/◌, arith, ◌∙◌, ◌+◌, Option-cases, Bool-cases, ◌≡◌,
  ◌≤◌, List, ℕ,
}
use cdroid.Driver.Buffer.{
  list_del, page_size, area_end, binder_buffer_size, page_mask, page_align, false, sizeof_buffer,
  prev_of, next_of, Proc, Buffer, binder_insert_free_buffer,
}
use cdroid.Driver.Kernel.{Kernel, ok, Result-cases, >>=-eq-ok}
use cdroid.Driver.Rbtree.{Rb}
use cdroid.Driver.Buffer.Free.{
  release_buffer, buffer_end_page, buffer_start_page, frees_end, frees_start, freeable, freed_size,
  merge_next, binder_delete_free_buffer, free_at, merge_prev, freed_space,
}
use cdroid.Driver.Buffer.FreeLaws.{freed-used, merging}
use cdroid.Driver.Buffer.PagesLaws.{update-only_pages}

-- The merging leaves the asynchronous space.
delete-async :
    (k : Kernel) (p q : Proc) (a : ℕ)
    → binder_delete_free_buffer k p a ≡ ok q
    → q.free_async_space ≡ p.free_async_space
unfolding binder_delete_free_buffer
delete-async k p q a h = elim (Option-cases (prev_of a p.buffers)) [
  | inl e ↦ absurd (ground arith)
  | inr (prev, e) ↦
      let next = next_of a p.buffers in
      let start = frees_start a prev.addr next in
      let stop = frees_end a prev.addr next in
      let from = if start then buffer_start_page a else buffer_end_page a in
      let to = (if stop then buffer_end_page a else buffer_start_page a) + page_size in
      let p0 = record p { buffers = list_del a p.buffers } in
      elim (Result-cases (binder_update_page_range k p0 false from to false)) [
        | inl u ↦ ground arith
        | inr ((r, p1), u) ↦
            let same =
              ap (λ (x : Proc). x.free_async_space)
                (update-only_pages k p0 false from to false r p1 u) in
            ground (arith, same)
      ]
]

merge_next-async :
    (k : Kernel) (rb : Rb) (p q : Proc) (a : ℕ)
    → merge_next k rb p a ≡ ok q
    → q.free_async_space ≡ p.free_async_space
unfolding merge_next
merge_next-async k rb p q a h = elim (Option-cases (next_of a p.buffers)) [
  | inl e ↦ ground arith
  | inr (n, e) ↦ ground (
    arith,
    delete-async k (record p { free_buffers = rb.rb_erase n.addr p.free_buffers }) q n.addr,
  )
]

merge_prev-async :
    (k : Kernel) (rb : Rb) (p q : Proc) (a x : ℕ)
    → merge_prev k rb p a ≡ ok (x, q)
    → q.free_async_space ≡ p.free_async_space
unfolding merge_prev
merge_prev-async k rb p q a x h = elim (Option-cases (prev_of a p.buffers)) [
  | inl e ↦ ground arith
  | inr (prev, e) ↦ elim (Result-cases (binder_delete_free_buffer k p a)) [
    | inl d ↦ ground arith
    | inr (p1, d) ↦ ground (arith, delete-async k p p1 a d)
  ]
]

insert-async :
    (rb : Rb) (p q : Proc) (a : ℕ)
    → binder_insert_free_buffer rb p a ≡ ok q
    → q.free_async_space ≡ p.free_async_space
unfolding binder_insert_free_buffer
insert-async rb p q a h = ground arith

merging-async :
    (k : Kernel) (rb : Rb) (p q : Proc) (a : ℕ)
    → merging k rb a p ≡ ok q
    → q.free_async_space ≡ p.free_async_space
merging-async k rb p q a h =
    let (p2, m, h2) = >>=-eq-ok (merge_next k rb p a) _ h in
    let ((x, p3), m', h3) = >>=-eq-ok (merge_prev k rb p2 a) _ h2 in
    insert-async rb p3 q x h3 ∙ merge_prev-async k rb p2 p3 a x m' ∙ merge_next-async k rb p p2 a m

pub free_at-async :
    (k : Kernel) (rb : Rb) (p q : Proc) (b : Buffer)
    → free_at k rb p b ≡ ok q
    → q.free_async_space ≡ freed_space p b
unfolding free_at
free_at-async k rb p q b h = elim (Bool-cases (freeable p b (freed_size b))) [
  | inr bad ↦ absurd (ground arith)
  | inl fine ↦
      let p0 = record p { free_async_space = freed_space p b } in
      let from = page_align (b.addr + sizeof_buffer) in
      let to = page_mask (b.addr + sizeof_buffer + binder_buffer_size p b.addr) in
      let ((r, p1), u, h1) =
        >>=-eq-ok (binder_update_page_range k p0 false from to false)
          (λ r. merging k rb b.addr (release_buffer rb r.1 b.addr)) {b = q} (rw fine at h) in
      merging-async k rb (release_buffer rb p1 b.addr) q b.addr h1
      ∙ ap (λ (x : Proc). x.free_async_space) (update-only_pages k p0 false from to false r p1 u)
]

-- What an asynchronous buffer gives back: its header and its sizes, aligned to 4 bytes.
abbrev pub given_back : Buffer → ℕ
given_back b = (b.data_size + 3) / 4 * 4 + (b.offsets_size + 3) / 4 * 4 + sizeof_buffer

freed-given :
    (b : Buffer)
    → b.data_size ≤ used b
    → b.offsets_size ≤ used b
    → freed_size b + sizeof_buffer ≡ given_back b
freed-given b d o = omega arith

-- It is added without a wrap.
pub freed_space_lem :
    (p : Proc) (pre post : List Buffer) (b : Buffer)
    → IsValid p
    → p.buffers ≡ pre ++ b ∷ post
    → b.free ≡ false
    → freed_space p b ≡ p.free_async_space + (if b.async_transaction then given_back b else 0)
freed_space_lem p pre post b v at busy =
    let stop = area_end p in
    let fits : Fits stop (pre ++ b ∷ post) = rw at at v.fits in
    let (inside, d, o) = (Fits-append_right stop pre (b ∷ post) fits).0 busy in
    ground (
      arith,
      v.async,
      v.area,
      ap async_used at,
      async_used-append pre (b ∷ post),
      freed-given b d o,
      freed-used b d o,
    )
