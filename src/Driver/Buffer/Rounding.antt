-- ===== src/Driver/Buffer/Rounding.antt =====
-- Arithmetic on the addresses of pages and of the ends of buffers of driver/binder.c.
use cdroid.Driver.Buffer.Alloc.{kept_size}
use cdroid.Driver.Buffer.Paged.{extent}
use cdroid.Driver.Buffer.{page_align, sizeof_buffer, Buffer, true}
use cdroid.Prelude.{leb, Bool-cases, ltb, ◌<◌, ◌⊎◌, arith, Bool, ℕ, ◌≡◌, ◌≤◌, ◌+◌, ◌%◌, inl, inr}

pub kept_low :
    (whole size : ℕ) (exact : Bool)
    → exact ≡ leb whole size
    → size ≤ whole
    → size ≤ kept_size whole size exact
kept_low whole size exact e l = ground arith

pub kept_far :
    (whole size : ℕ) (exact : Bool)
    → exact ≡ leb whole size
    → size + sizeof_buffer + 4 < whole
    → kept_size whole size exact ≡ size + sizeof_buffer
kept_far whole size exact e l = ground arith

pub below_align : (page a : ℕ) → page % 4096 ≡ 0 → page < a → page + 4096 ≤ page_align a
below_align page a m l = omega arith

pub close_end :
    (page a kept size behind : ℕ)
    → page % 4096 ≡ 0
    → size ≤ kept
    → behind ≤ a + size + sizeof_buffer + 4
    → (page + 4096 ≤ page_align (a + kept)) ⊎ (behind < page + 4096)
close_end page a kept size behind m l near = elim (Bool-cases (ltb page (a + kept))) [
  | inl y ↦ inl (below_align page (a + kept) m (ground arith))
  | inr n ↦ inr (ground arith)
]

pub header_end :
    (page n : ℕ) (b : Buffer) → b.free ≡ true → page < extent b n → page < b.addr + sizeof_buffer
header_end page n b f h = ground arith
