-- ===== src/Driver/Buffer/Pages.antt =====
-- binder_update_page_range of driver/binder.c. The trace calls, the mmap semaphore and the mapping
-- in the process beside proc->pages are left out.
use cdroid.Driver.Kernel.{
  Kernel, Result, ok, bug, ◌>>=◌, no_fault, alloc_page_fails, map_vm_area_fails,
  vm_insert_page_fails,
}
use cdroid.Driver.Buffer.{Proc, page_size}
use cdroid.Prelude.{
  ℕ, zero, suc, ◌+◌, ◌-◌, ◌*◌, ◌/◌, Bool, true, false, not, ◌&&◌, none, some, ◌==◌, leb,
  if◌then◌else◌,
}

abbrev pub put : (ℕ → Bool) → ℕ → Bool → ℕ → Bool
put pages i v j = if i == j then v else pages j

-- The loop at free_range, from the last of n pages down to the first; freeing an absent page is a
-- null pointer.
unfoldable pub free_range : ℕ → ℕ → ℕ → (ℕ → Bool) → Result (ℕ → Bool)
free_range base start zero pages = ok pages
free_range base start (suc n) pages =
    let i = (start + n * page_size - base) / page_size in
    elim (pages i) [ true ↦ free_range base start n (put pages i false) | false ↦ bug ]

-- The way out behind a failure: the j pages before the failing one are freed.
abbrev pub unwind : ℕ → ℕ → ℕ → (ℕ → Bool) → Result (Bool × (ℕ → Bool))
unwind base start j left = free_range base start j left >>= λ q. ok (false, q)

-- The first loop, at its page j of j + n. A failure frees the page at hand, if it is there, and
-- those before it.
unfoldable pub map_range : Kernel → ℕ → ℕ → ℕ → ℕ → (ℕ → Bool) → Result (Bool × (ℕ → Bool))
map_range k base start j zero pages = ok (true, pages)
map_range k base start j (suc n) pages =
    let i = (start + j * page_size - base) / page_size in
    elim (pages i) [
      | true ↦ bug
      | false ↦ elim (k.fault (start + j * page_size)) [
        | no_fault ↦ map_range k base start (suc j) n (put pages i true)
        | alloc_page_fails ↦ unwind base start j pages
        | map_vm_area_fails ↦ unwind base start j (put (put pages i true) i false)
        | vm_insert_page_fails ↦ unwind base start j (put (put pages i true) i false)
      ]
    ]

-- The vma that pages are mapped in: the argument, or the process's if its mm is still the one.
abbrev pub mapping_vma : Kernel → Proc → Bool → Bool
mapping_vma k p given =
    if given then true else elim k.mm [ none ↦ false | some m ↦ p.vma && (m == p.vma_vm_mm) ]

-- true is the return value 0, false is -ENOMEM.
unfoldable pub binder_update_page_range : Kernel → Proc → Bool → ℕ → ℕ → Bool → Result (Bool × Proc)
binder_update_page_range k p allocate start stop given =
    let rounds = (stop - start + (page_size - 1)) / page_size in
    if leb stop start
    then ok (true, p)
    else if not allocate
    then (free_range p.buffer start ((stop - start) / page_size) p.pages >>= λ q.
        ok (false, record p { pages = q }))
    else if not (mapping_vma k p given)
    then ok (false, p)
    else (map_range k p.buffer start 0 rounds p.pages >>= λ r. ok (r.0, record p { pages = r.1 }))
