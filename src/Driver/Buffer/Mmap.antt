-- ===== src/Driver/Buffer/Mmap.antt =====
-- binder_mmap of driver/binder.c, which sets the buffers of a process up. Cache colouring
-- (CONFIG_CPU_CACHE_VIPT), the vma's flags and operations and the locks are left out.
use cdroid.Driver.Kernel.{Kernel, Result, ok, ◌>>=◌}
use cdroid.Driver.Rbtree.{link_visits, Tree, link_by, leaf, node, Rb}
use cdroid.Driver.Buffer.{
  listed_free, binder_buffer_size, Proc, sub64, page_size, sizeof_buffer, binder_insert_free_buffer,
}
use cdroid.Driver.Buffer.Alloc.{new_header}
use cdroid.Driver.Buffer.Pages.{binder_update_page_range}
use cdroid.Driver.Buffer.Paged.{IsPaged}
use cdroid.Driver.Buffer.PagesLaws.{map_range_lem, map_range_ok}
use cdroid.Driver.Buffer.Insert.{insert_free}
use cdroid.Driver.Buffer.Valid.{IsValid}
use cdroid.Prelude.{
  ap, zero, suc, ◌%◌, sym, inr, subst₂, inl, Bool-cases, ℕ, ◌+◌, ◌-◌, ◌/◌, ◌^◌, ◌≤◌, ◌<◌, ◌≡◌, refl,
  Bool, true, false, not, [], ◌∷◌, Option, none, some, arith, ◌==◌, ltb, if◌then◌else◌,
}

pub data Errno : Type 0 where
  success einval eperm ebusy enomem : Errno

-- What the caller maps: `forbidden` are the flags of FORBIDDEN_MMAP_FLAGS.
pub record Vma : Type 0 where
  pub vm_start : ℕ
  pub vm_end : ℕ
  pub vm_mm : ℕ
  pub forbidden : Bool

-- SZ_4M
abbrev pub largest : ℕ
largest = 4194304

abbrev pub mapped_size : Vma → ℕ
mapped_size a = if ltb largest (a.vm_end - a.vm_start) then largest else a.vm_end - a.vm_start

-- From the first page on: `area` is what get_vm_area returned.
unfoldable pub map_area : Kernel → Rb → Proc → Vma → ℕ → Result (Errno × Proc)
map_area k rb p vma area =
    let q = record p {
      buffer = area;
      user_buffer_offset = sub64 vma.vm_start area;
      pages = λ _. false;
      buffer_size = mapped_size vma;
    } in
    binder_update_page_range k q true area (area + page_size) true >>= λ r.
    if not r.0
    then ok (enomem, record r.1 { buffer = 0; pages = λ _. false })
    else (binder_insert_free_buffer rb (record r.1 { buffers = new_header r.1 area ∷ [] }) area
        >>= λ s. ok (
          success,
          record s { free_async_space = s.buffer_size / 2; vma = true; vma_vm_mm = vma.vm_mm },
        ))

-- `same_task` is proc->tsk == current, `area` what get_vm_area returns, `array` whether kzalloc
-- finds room for the page array.
unfoldable pub binder_mmap :
    Kernel → Rb → Proc → Bool → Vma → Option ℕ → Bool → Result (Errno × Proc)
binder_mmap k rb p same_task vma area array =
    if not same_task
    then ok (einval, p)
    else if vma.forbidden
    then ok (eperm, p)
    else if not (p.buffer == 0)
    then ok (ebusy, p)
    else elim area [
      | none ↦ ok (enomem, p)
      | some at ↦
          if not array
          then ok (enomem, record p { user_buffer_offset = sub64 vma.vm_start at })
          else map_area k rb p vma at
    ]

-- A process that has mapped nothing yet, as binder_open leaves it.
pub record IsUnmapped (p : Proc) : Type 0 where
  pub no_buffer : p.buffer ≡ 0
  pub no_free : p.free_buffers ≡ leaf
  pub no_allocated : p.allocated_buffers ≡ leaf

-- The mapping of an area: one free buffer over all of it.
abbrev whole_area : Rb → Proc → Vma → ℕ → (ℕ → Bool) → Proc
whole_area rb p vma area pages = record p {
  buffer = area;
  user_buffer_offset = sub64 vma.vm_start area;
  buffers = new_header p area ∷ [];
  free_buffers = rb.insert_color (node leaf area leaf);
  allocated_buffers = leaf;
  pages = pages;
  buffer_size = mapped_size vma;
  free_async_space = mapped_size vma / 2;
  vma = true;
  vma_vm_mm = vma.vm_mm;
}

module _ (rb : Rb) (p : Proc) (vma : Vma) (area : ℕ) (pages : ℕ → Bool) where
  whole_area-IsValid :
      sizeof_buffer ≤ mapped_size vma
      → area + mapped_size vma < 2 ^ 64
      → IsValid (whole_area rb p vma area pages)
  whole_area-IsValid large high = record {
    tiles = (refl, omega arith, refl);
    coalesced = (refl, tt);
    fits = (λ f. absurd (ground arith), tt);
    free_tree = record {
      nodes = λ a. rw (rb.inorder-insert_color (node leaf area leaf)) refl;
      order = rw (rb.inorder-insert_color (node leaf area leaf)) (tt, tt);
    };
    allocated_tree = record { nodes = λ a. refl; order = tt };
    async = omega arith;
    area = high;
  }

module _ (rb : Rb) (p : Proc) (vma : Vma) (area : ℕ) where
  abbrev prepared : Proc
  prepared = record p {
    buffer = area;
    user_buffer_offset = sub64 vma.vm_start area;
    pages = λ _. false;
    buffer_size = mapped_size vma;
  }

  -- The first page is mapped or not, and nothing stops the call.
  first_page :
      (k : Kernel)
      → (r : Bool) × (pages : ℕ → Bool) × (binder_update_page_range k prepared true area
            (area + page_size)
            true
          ≡ ok (r, record prepared { pages = pages }))
        × ((i : ℕ) → 1 ≤ i → pages i ≡ false)
        × (r ≡ true → pages 0 ≡ true)
  unfolding binder_update_page_range
  first_page k =
      let (r, q, e) =
        map_range_ok area area 0 (omega arith) k 0 1 (λ _. false) (λ i w. refl)
          (λ i w. ground arith) in
      let ends = map_range_lem area area 0 (omega arith) k 0 1 (λ _. false) q r e in
      (r, q, ground arith, λ i l. ground (arith, ends i), λ y. ground (arith, ends 0))

-- How binder_mmap ends.
abbrev pub Mapped : Errno → Proc → Proc → Type 0
Mapped success p q = IsValid q × IsPaged q × (q.free_async_space ≡ q.buffer_size / 2)
Mapped _ p q = IsUnmapped q

module _ (k : Kernel) (rb : Rb) (p : Proc) (vma : Vma) (u : IsUnmapped p)
    (large : vma.vm_start + page_size ≤ vma.vm_end) (starts : vma.vm_start % 4096 ≡ 0)
    (ends : vma.vm_end % 4096 ≡ 0) where
  whole_pages : mapped_size vma % 4096 ≡ 0
  whole_pages = ground (arith, starts, ends)

  first_only : (pages : ℕ → Bool) → pages 0 ≡ true → (i : ℕ) → i < 1 → pages i ≡ true
  first_only pages h zero l = h
  first_only pages h (suc i) l = absurd (omega arith)

  map_area_lem :
      (area : ℕ)
      → area + mapped_size vma < 2 ^ 64
      → area % 4096 ≡ 0
      → (e : Errno) × (q : Proc) × (map_area k rb p vma area ≡ ok (e, q)) × Mapped e p q
  unfolding map_area link_by link_visits
  map_area_lem area high aligned =
      let (r, pages, e, rest, first) = first_page rb p vma area k in by_page r pages e rest first
    where
      by_page :
          (r : Bool) (pages : ℕ → Bool)
          → binder_update_page_range k (prepared rb p vma area) true area (area + page_size) true
            ≡ ok (r, record (prepared rb p vma area) { pages = pages })
          → ((i : ℕ) → 1 ≤ i → pages i ≡ false)
          → (r ≡ true → pages 0 ≡ true)
          → (e : Errno) × (q : Proc) × (map_area k rb p vma area ≡ ok (e, q)) × Mapped e p q
      by_page false pages e rest first = (
        enomem,
        record (prepared rb p vma area) { buffer = 0; pages = λ _. false },
        rw e,
        record { no_buffer = refl; no_free = u.no_free; no_allocated = u.no_allocated },
      )
      by_page true pages e rest first =
          let q = record (prepared rb p vma area) {
            pages = pages;
            buffers = new_header p area ∷ [];
          } in
          let key = binder_buffer_size q in
          let linked =
            insert_free rb q area (new_header p area) (ground arith) refl
              (ap (link_visits key (listed_free q.buffers) (key area)) u.no_free) in
          (
            success,
            record q {
              free_buffers = rb.insert_color (link_by key (key area) area p.free_buffers);
              free_async_space = mapped_size vma / 2;
              vma = true;
              vma_vm_mm = vma.vm_mm;
            },
            rw e (rw linked),
            (
              subst₂
                  (λ (t a : Tree). IsValid (record q {
                    free_buffers = rb.insert_color (link_by key (key area) area t);
                    allocated_buffers = a;
                    free_async_space = mapped_size vma / 2;
                    vma = true;
                    vma_vm_mm = vma.vm_mm;
                  }))
                  (sym u.no_free) (sym u.no_allocated)
                  (whole_area-IsValid rb p vma area pages (ground arith) high),
              record {
                aligned = aligned;
                whole = whole_pages;
                paged = (
                  (
                    λ i f l h. rest i (omega arith),
                    λ i l h. first_only pages (first refl) i (omega arith),
                  ),
                  tt,
                );
              },
              refl,
            ),
          )

  -- binder_mmap on a process that has mapped nothing, for a vma of whole pages, at least one, and
  -- an area that starts at a page and ends within the address space, returns an error number
  -- without reaching a BUG. With 0 the buffers are valid, with half of the area as asynchronous
  -- space, in an area of whole pages, of which those are there that the one header lies on and no
  -- others; with an error the process is still unmapped.
  pub binder_mmap-Mapped :
      (same_task : Bool) (area : Option ℕ) (array : Bool)
      → ((at : ℕ) → area ≡ some at → (at + mapped_size vma < 2 ^ 64) × (at % 4096 ≡ 0))
      → (e : Errno) × (q : Proc) × (binder_mmap k rb p same_task vma area array ≡ ok (e, q))
        × Mapped e p q
  unfolding binder_mmap
  binder_mmap-Mapped false area array high = (einval, p, refl, u)
  binder_mmap-Mapped true area array high = elim (Bool-cases vma.forbidden) [
    | inl f ↦ (eperm, p, rw f, u)
    | inr allowed ↦ rw (allowed, not_busy) (found area array high)
  ]
    where
      not_busy : (p.buffer == 0) ≡ true
      not_busy = ground (arith, u.no_buffer)

      found :
          (area : Option ℕ) (array : Bool)
          → ((at : ℕ) → area ≡ some at → (at + mapped_size vma < 2 ^ 64) × (at % 4096 ≡ 0))
          → (e : Errno) × (q : Proc) × (◌≡◌ {A = Result (Errno × Proc)}
              (elim area [
                | none ↦ ok (enomem, p)
                | some at ↦
                    if not array
                    then ok (enomem, record p { user_buffer_offset = sub64 vma.vm_start at })
                    else map_area k rb p vma at
              ])
              (ok (e, q)))
            × Mapped e p q
      found none array high = (enomem, p, refl, u)
      found (some at) false high = (
        enomem,
        record p { user_buffer_offset = sub64 vma.vm_start at },
        refl,
        record { no_buffer = u.no_buffer; no_free = u.no_free; no_allocated = u.no_allocated },
      )
      found (some at) true high = map_area_lem at (high at refl).0 (high at refl).1
