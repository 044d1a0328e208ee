-- ===== src/Driver/Buffer.antt =====
-- The buffers of one process in driver/binder.c: struct binder_buffer, the fields of struct
-- binder_proc that the buffer routines use, the list of buffers and the walks over the two trees.
-- Addresses are numbers; struct sizes are those of a 64-bit kernel with 4096-byte pages.
pub mod Pages
pub mod Alloc
pub mod Free
pub mod Tiling
pub mod Valid
pub mod Fit
pub mod Taking
pub mod Taken
pub mod Granting
pub mod AllocLaws
pub mod Pending
pub mod Merging
pub mod Mmap
pub mod Lookup
pub mod FreeLaws
pub mod Insert
pub mod PagesLaws
pub mod Paged
pub mod Ranges
pub mod Rounding
pub mod PagedTaking
pub mod Returning
pub mod Shrinking
pub mod HeaderPages
pub mod Deleting
pub mod Joining
pub mod Space
pub mod Freeing
use cdroid.Driver.Rbtree.{Tree, Rb, search_by, link_by, search_visits, link_visits}
use cdroid.Driver.Kernel.{Result, ok, bug}
use cdroid.Prelude.{
  ℕ, ◌+◌, ◌-◌, ◌*◌, ◌/◌, ◌%◌, ◌^◌, Bool, true, false, not, List, [], ◌∷◌, Option, none, some, ◌==◌,
  if◌then◌else◌,
}

-- sizeof(struct binder_buffer), the offset of its `data`; PAGE_SIZE.
abbrev pub sizeof_buffer : ℕ
sizeof_buffer = 80

abbrev pub page_size : ℕ
page_size = 4096

-- ALIGN(x, sizeof(void *)), in a size_t.
abbrev pub align : ℕ → ℕ
align x = (x + 7) % 2 ^ 64 / 8 * 8

-- ALIGN(x, sizeof(binder_ptr)); a binder_ptr is a __u32.
abbrev pub align4 : ℕ → ℕ
align4 x = (x + 3) % 2 ^ 64 / 4 * 4

-- a - b in a size_t.
abbrev pub sub64 : ℕ → ℕ → ℕ
sub64 a b = (a + (2 ^ 64 - b % 2 ^ 64)) % 2 ^ 64

abbrev pub page_mask : ℕ → ℕ
page_mask a = a / 4096 * 4096

abbrev pub page_align : ℕ → ℕ
page_align a = (a + 4095) / 4096 * 4096

-- struct binder_buffer at `addr`; `transaction` and `target_node` are null or an address.
pub record Buffer : Type 0 where
  pub addr : ℕ
  pub free : Bool
  pub allow_user_free : Bool
  pub async_transaction : Bool
  pub transaction : Option ℕ
  pub target_node : Option ℕ
  pub data_size : ℕ
  pub offsets_size : ℕ

-- `buffers` is the list in its order; `pages i` says that proc->pages[i] is not null; `vma` that
-- proc->vma is not null. `stale` is what the memory at an address holds before a header is written.
pub record Proc : Type 0 where
  pub vma : Bool
  pub vma_vm_mm : ℕ
  pub buffer : ℕ
  pub user_buffer_offset : ℕ
  pub buffers : List Buffer
  pub free_buffers : Tree
  pub allocated_buffers : Tree
  pub free_async_space : ℕ
  pub pages : ℕ → Bool
  pub buffer_size : ℕ
  pub stale : ℕ → Buffer

-- The end of the area.
abbrev pub area_end : Proc → ℕ
area_end p = p.buffer + p.buffer_size

-- The list primitives, by the address of an entry.
abbrev pub get_buffer : ℕ → List Buffer → Option Buffer
get_buffer a [] = none
get_buffer a (b ∷ bs) = if a == b.addr then some b else get_buffer a bs

abbrev pub set_buffer : ℕ → (Buffer → Buffer) → List Buffer → List Buffer
set_buffer a f [] = []
set_buffer a f (b ∷ bs) = if a == b.addr then f b ∷ bs else b ∷ set_buffer a f bs

-- list_add(&new->entry, &at->entry)
abbrev pub list_add : Buffer → ℕ → List Buffer → List Buffer
list_add new a [] = []
list_add new a (b ∷ bs) = if a == b.addr then b ∷ new ∷ bs else b ∷ list_add new a bs

abbrev pub list_del : ℕ → List Buffer → List Buffer
list_del a [] = []
list_del a (b ∷ bs) = if a == b.addr then bs else b ∷ list_del a bs

abbrev pub first : List Buffer → Option Buffer
first [] = none
first (b ∷ bs) = some b

abbrev pub next_of : ℕ → List Buffer → Option Buffer
next_of a [] = none
next_of a (b ∷ bs) = if a == b.addr then first bs else next_of a bs

abbrev pub prev_from : Option Buffer → ℕ → List Buffer → Option Buffer
prev_from before a [] = none
prev_from before a (b ∷ bs) = if a == b.addr then before else prev_from (some b) a bs

abbrev pub prev_of : ℕ → List Buffer → Option Buffer
prev_of = prev_from none

-- Where the buffer before these ends.
abbrev pub next_addr : ℕ → List Buffer → ℕ
next_addr e [] = e
next_addr e (b ∷ bs) = b.addr

abbrev pub size_in : ℕ → ℕ → List Buffer → ℕ
size_in e a [] = 0
size_in e a (b ∷ bs) = if a == b.addr then next_addr e bs - (a + sizeof_buffer) else size_in e a bs

-- binder_buffer_size
unfoldable pub binder_buffer_size : Proc → ℕ → ℕ
binder_buffer_size p a = size_in (area_end p) a p.buffers

-- `free` of the buffer at an address, and its negation, for the BUG_ON of a walk.
abbrev pub listed_free : List Buffer → ℕ → Bool
listed_free bs a = elim (get_buffer a bs) [ none ↦ false | some b ↦ b.free ]

abbrev pub listed_taken : List Buffer → ℕ → Bool
listed_taken bs a = elim (get_buffer a bs) [ none ↦ false | some b ↦ not b.free ]

-- binder_insert_free_buffer
unfoldable pub binder_insert_free_buffer : Rb → Proc → ℕ → Result Proc
binder_insert_free_buffer rb p a = elim (get_buffer a p.buffers) [
  | none ↦ bug
  | some b ↦
      if not b.free
      then bug
      else if not (
          link_visits (binder_buffer_size p) (listed_free p.buffers) (binder_buffer_size p a)
            p.free_buffers)
      then bug
      else ok (record p {
        free_buffers =
            rb.insert_color
              (link_by (binder_buffer_size p) (binder_buffer_size p a) a p.free_buffers);
      })
]

-- binder_insert_allocated_buffer; BUG() if the address is there already.
unfoldable pub binder_insert_allocated_buffer : Rb → Proc → ℕ → Result Proc
binder_insert_allocated_buffer rb p a = elim (get_buffer a p.buffers) [
  | none ↦ bug
  | some b ↦
      if b.free
      then bug
      else if not (search_visits (λ x. x) (listed_taken p.buffers) a p.allocated_buffers)
      then bug
      else elim (search_by (λ x. x) a p.allocated_buffers) [
        | some _ ↦ bug
        | none ↦ ok (record p {
          allocated_buffers = rb.insert_color (link_by (λ x. x) a a p.allocated_buffers);
        })
      ]
]

-- binder_buffer_lookup, by the address of the data in the process
unfoldable pub binder_buffer_lookup : Proc → ℕ → Result (Option ℕ)
binder_buffer_lookup p user_ptr =
    let kern_ptr = sub64 (sub64 user_ptr p.user_buffer_offset) sizeof_buffer in
    if not (search_visits (λ x. x) (listed_taken p.buffers) kern_ptr p.allocated_buffers)
    then bug
    else ok (search_by (λ x. x) kern_ptr p.allocated_buffers)
