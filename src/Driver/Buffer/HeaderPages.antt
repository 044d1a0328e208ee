-- ===== src/Driver/Buffer/HeaderPages.antt =====
-- Which pages of a header binder_delete_free_buffer of driver/binder.c frees.
use cdroid.Driver.Buffer.Free.{frees_start, frees_end, buffer_start_page, buffer_end_page}
use cdroid.Driver.Buffer.Shrinking.{whole_in}
use cdroid.Driver.Buffer.{Buffer, List, next_addr, page_size, sizeof_buffer, first}
use cdroid.Prelude.{
  ℕ, ◌≡◌, ◌≤◌, ◌<◌, ◌+◌, ◌%◌, ◌&&◌, ◌||◌, ◌∷◌, [], Bool, true, arith, if◌then◌else◌,
}

-- The two flags say whether the page lies between the header before and the header behind.
pub frees_start_lem :
    (prev a stop : ℕ) (post : List Buffer)
    → prev + sizeof_buffer ≤ a
    → a + sizeof_buffer ≤ next_addr stop post
    → stop % 4096 ≡ 0
    → frees_start a prev (first post)
      ≡ whole_in (prev + sizeof_buffer) (next_addr stop post) (buffer_start_page a)
frees_start_lem prev a stop [] l u m = ground arith
frees_start_lem prev a stop (x ∷ xs) l u m = ground arith

pub frees_end_lem :
    (prev a stop : ℕ) (post : List Buffer)
    → prev + sizeof_buffer ≤ a
    → a + sizeof_buffer ≤ next_addr stop post
    → stop % 4096 ≡ 0
    → frees_end a prev (first post)
      ≡ whole_in (prev + sizeof_buffer) (next_addr stop post) (buffer_end_page a)
frees_end_lem prev a stop [] l u m = ground arith
frees_end_lem prev a stop (x ∷ xs) l u m = ground arith

-- Where the pages to free begin and end.
abbrev pub from_page : ℕ → Bool → ℕ
from_page a start = if start then buffer_start_page a else buffer_end_page a

abbrev pub to_page : ℕ → Bool → ℕ
to_page a stop = (if stop then buffer_end_page a else buffer_start_page a) + page_size

abbrev pub goes : ℕ → Bool → Bool → ℕ → Bool
goes a start stop page = (start || stop) && whole_in (from_page a start) (to_page a stop) page

module _ (a : ℕ) (start stop : Bool) (page : ℕ) (aligned : page % 4096 ≡ 0) where
  pub goes-inside :
      (lo hi : ℕ)
      → start ≡ whole_in lo hi (buffer_start_page a)
      → stop ≡ whole_in lo hi (buffer_end_page a)
      → goes a start stop page ≡ true
      → (lo ≤ page) × (page + 4096 ≤ hi) × (a < page + 4096) × (page < a + sizeof_buffer)
  goes-inside lo hi s t g = (ground arith, ground arith, ground arith, ground arith)

  pub header-goes :
      (lo hi : ℕ)
      → start ≡ whole_in lo hi (buffer_start_page a)
      → stop ≡ whole_in lo hi (buffer_end_page a)
      → lo ≤ page
      → page + 4096 ≤ hi
      → a < page + 4096
      → page < a + sizeof_buffer
      → goes a start stop page ≡ true
  header-goes lo hi s t l u m n = ground arith
