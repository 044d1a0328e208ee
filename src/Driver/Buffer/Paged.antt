-- ===== src/Driver/Buffer/Paged.antt =====
-- Which pages of the area of driver/binder.c are there between calls.
use cdroid.Driver.Buffer.Tiling.{Tiles-le, Tiles}
use cdroid.Driver.Rbtree.{Rb}
use cdroid.Driver.Buffer.PagesLaws.{map_range_ok, within}
use cdroid.Driver.Kernel.{Kernel}
use cdroid.Driver.Buffer.Pages.{mapping_vma, binder_update_page_range}
use cdroid.Driver.Buffer.{
  page_size, sizeof_buffer, ok, next_addr, true, Buffer, List, binder_insert_free_buffer,
  binder_insert_allocated_buffer, Bool, area_end, Proc,
}
use cdroid.Driver.Buffer.Alloc.{take_buffer}
use cdroid.Prelude.{
  if◌then◌else◌, ◌<◌, leb, Bool-cases, arith, false, ℕ, ◌++◌, ◌∷◌, [], ◌≡◌, ◌≤◌, ◌+◌, ◌*◌, ◌%◌, ◌-◌,
  ◌/◌, refl, inl, inr,
}

-- A property of each buffer and the address where it ends.
abbrev pub EachNext : (Buffer → ℕ → Type 0) → ℕ → List Buffer → Type 0
EachNext P hi [] = Unit
EachNext P hi (b ∷ bs) = P b (next_addr hi bs) × EachNext P hi bs

module _ (P : Buffer → ℕ → Type 0) (hi : ℕ) where
  pub EachNext-append :
      (xs ys : List Buffer)
      → EachNext P (next_addr hi ys) xs
      → EachNext P hi ys
      → EachNext P hi (xs ++ ys)
  EachNext-append [] ys h k = k
  EachNext-append (x ∷ []) [] h k = (h.0, k)
  EachNext-append (x ∷ []) (y ∷ ys) h k = (h.0, k)
  EachNext-append (x ∷ x' ∷ xs) ys h k = (h.0, EachNext-append (x' ∷ xs) ys h.1 k)

  pub EachNext-append_left :
      (xs ys : List Buffer) → EachNext P hi (xs ++ ys) → EachNext P (next_addr hi ys) xs
  EachNext-append_left [] ys h = tt
  EachNext-append_left (x ∷ []) [] h = h
  EachNext-append_left (x ∷ []) (y ∷ ys) h = (h.0, tt)
  EachNext-append_left (x ∷ x' ∷ xs) ys h = (h.0, EachNext-append_left (x' ∷ xs) ys h.1)

  pub EachNext-append_right : (xs ys : List Buffer) → EachNext P hi (xs ++ ys) → EachNext P hi ys
  EachNext-append_right [] ys h = h
  EachNext-append_right (x ∷ xs) ys h = EachNext-append_right xs ys h.1

  pub EachNext-mono :
      (Q : Buffer → ℕ → Type 0) (lo : ℕ) (xs : List Buffer)
      → Tiles lo hi xs
      → ((b : Buffer) (n : ℕ) → lo ≤ b.addr → b.addr + sizeof_buffer ≤ n → n ≤ hi → P b n → Q b n)
      → EachNext P hi xs
      → EachNext Q hi xs
  EachNext-mono Q lo [] t f h = tt
  EachNext-mono Q lo (x ∷ xs) t f h = (
    f x (next_addr hi xs) (omega (arith, t.0)) (omega (arith, t.0, t.1))
        (Tiles-le hi (next_addr hi xs) xs t.2) h.0,
    EachNext-mono Q (next_addr hi xs) xs t.2 (λ b n l m u. f b n (omega (arith, t.1, l)) m u) h.1,
  )

-- The page at `i`.
abbrev pub page_at : ℕ → ℕ → ℕ
page_at base i = base + i * 4096

-- How far a buffer that ends at `n` needs its pages: a free one only for its header.
abbrev pub extent : Buffer → ℕ → ℕ
extent b n = if b.free then b.addr + sizeof_buffer else n

-- Which pages are there: none that lies between the header of a free buffer and the next header, and
-- each that a header or a buffer in use lies on.
abbrev pub PagedAt : ℕ → (ℕ → Bool) → Buffer → ℕ → Type 0
PagedAt base pages b n =
    ((i : ℕ)
      → b.free ≡ true
      → b.addr + sizeof_buffer ≤ page_at base i
      → page_at base i + 4096 ≤ n
      → pages i ≡ false)
    × ((i : ℕ) → b.addr < page_at base i + 4096 → page_at base i < extent b n → pages i ≡ true)

pub record IsPaged (p : Proc) : Type 0 where
  pub aligned : p.buffer % 4096 ≡ 0
  pub whole : p.buffer_size % 4096 ≡ 0
  pub paged : EachNext (PagedAt p.buffer p.pages) (area_end p) p.buffers

-- An allocation over pages that are not there reaches no BUG.
pub update_range_ok :
    (k : Kernel) (p : Proc) (first count : ℕ)
    → ((i : ℕ) → within first count i ≡ true → p.pages i ≡ false)
    → (r : Bool) × (q : Proc) × (binder_update_page_range k p true
          (p.buffer + first * page_size)
          (p.buffer + (first + count) * page_size)
          false
        ≡ ok (r, q))
unfolding binder_update_page_range
update_range_ok k p first count gone =
    let start = p.buffer + first * page_size in
    let stop = p.buffer + (first + count) * page_size in
    elim (Bool-cases (leb stop start)) [
      | inl early ↦ (true, p, rw early refl)
      | inr go ↦ elim (Bool-cases (mapping_vma k p false)) [
        | inl there ↦
            let rounds = (stop - start + (page_size - 1)) / page_size in
            let all : rounds ≡ count = omega arith in
            let (r, pages, e) =
              map_range_ok p.buffer start first refl k 0 rounds p.pages
                (λ i w. gone i (ground (arith, all))) (λ i w. absurd (ground arith)) in
            (r, record p { pages = pages }, rw (go, there, e) refl)
        | inr not_there ↦ (false, p, rw (go, not_there) refl)
      ]
    ]

-- What behind the pages is done leaves the area and its pages.
pub take_buffer-only :
    (rb : Rb) (p q : Proc) (a kept size data_size offsets_size : ℕ) (is_async : Bool)
    → take_buffer rb p a kept size data_size offsets_size is_async ≡ ok q
    → (q.pages ≡ p.pages) × (q.buffer ≡ p.buffer) × (q.buffer_size ≡ p.buffer_size)
unfolding take_buffer binder_insert_allocated_buffer binder_insert_free_buffer
take_buffer-only rb p q a kept size data_size offsets_size is_async h = ground arith
