-- ===== src/Libbinder/Parcel/Limits.antt =====
-- Sizes and positions of src/lib/binder/Parcel.cpp that wrap.
use cdroid.Libbinder.Parcel.Inside.{IsInside}
use cdroid.Libbinder.Parcel.Growth.{grow_data, continue_write}
use cdroid.Libbinder.Parcel.Writing.{write_inplace, finish_write}
use cdroid.Libbinder.Parcel.Reading.{
  read_int32, read_aligned32, read_string16, read_string16_inplace, read_inplace,
  read_exception_code,
}
use cdroid.Libbinder.Parcel.{
  Parcel, Heap, done, fault, pad_size, init_state, set_data_position, RefCall,
}
use cdroid.Memory.{read32}
use cdroid.Prelude.{
  ℕ, ◌≡◌, ◌≤◌, ◌<◌, ◌+◌, ◌*◌, ◌-◌, ◌/◌, ◌%◌, ◌^◌, ◌&&◌, true, false, arith, refl, ltb, leb, ◌==◌,
  if◌then◌else◌, ap, ◌∙◌, sym, subst, some, none, Option, List,
}

-- The word at the position of a parcel that has one.
read_int32_is :
    (p : Parcel)
    → IsInside p
    → p.data_pos + 4 ≤ p.data_size
    → read_int32 p ≡ done (read32 p.bytes p.data_pos, record p { data_pos = p.data_pos + 4 })
unfolding read_int32 read_aligned32
read_int32_is p v there =
    let end : (p.data_pos + 4) % 2 ^ 32 ≡ p.data_pos + 4 = omega (arith, v.held, v.small, there) in
    let fits : leb (p.data_pos + 4) p.data_size ≡ true = ground (arith, there) in
    let held : leb (p.data_pos + 4) p.data_capacity ≡ true = ground (arith, there, v.held) in
    rw (end, fits, held) refl

-- No byte of a string of that size is looked for.
nothing_taken : (p : Parcel) → IsInside p → read_inplace p (2 ^ 32 - 2) ≡ (some p.data_pos, p)
unfolding read_inplace
nothing_taken p v =
    let end : (p.data_pos + 0) % 2 ^ 32 ≡ p.data_pos = omega (arith, v.ordered, v.held, v.small) in
    let on : leb p.data_pos p.data_pos ≡ true = ground arith in
    let fits : leb p.data_pos p.data_size ≡ true = ground (arith, v.ordered) in
    subst
      (λ e.
        ◌≡◌ {A = Option ℕ × Parcel}
          (if leb p.data_pos e && leb e p.data_size
            then (some p.data_pos, record p { data_pos = e })
            else (none, p))
          (some p.data_pos, p))
      (sym end) (rw (on, fits) refl)

-- readString16Inplace, on any parcel of less than 2^31 bytes that stands within its data, before a
-- length of 2^31 - 2, gives that length and the place behind it and takes no byte for the units:
-- the size in bytes wraps to 0 when it is padded. readString16 then reads behind the memory of the
-- parcel.
pub read_string16_wraps :
    (p : Parcel)
    → IsInside p
    → p.data_pos + 4 ≤ p.data_size
    → read32 p.bytes p.data_pos ≡ 2 ^ 31 - 2
    → (q : Parcel) × (read_string16_inplace p ≡ done (some (p.data_pos + 4, 2 ^ 31 - 2), q))
      × (q.data_pos ≡ p.data_pos + 4)
      × (read_string16 p ≡ fault)
unfolding read_string16 read_string16_inplace
read_string16_wraps p v there long =
    let q = record p { data_pos = p.data_pos + 4 } in
    let w : IsInside q = record { ordered = there; held = v.held; small = v.small } in
    let word : read_int32 p ≡ done (2 ^ 31 - 2, q) =
      read_int32_is p v there ∙ ap (λ n. done (n, q)) long in
    let behind : leb (p.data_pos + 4 + (2 ^ 32 - 4)) p.data_capacity ≡ false =
      ground (arith, v.small) in
    (q, rw (word, nothing_taken q w) refl, refl, rw (word, nothing_taken q w, behind) refl)

-- Next to the end of the addresses the end of a word wraps into the data.
reads_outside :
    (p : Parcel)
    → p.data_capacity < 2 ^ 31
    → 2 ^ 32 - 4 ≤ p.data_pos
    → p.data_pos < 2 ^ 32
    → 8 ≤ p.data_size
    → read_int32 p ≡ fault
unfolding read_int32 read_aligned32
reads_outside p small far bound there =
    let fits : leb ((p.data_pos + 4) % 2 ^ 32) p.data_size ≡ true =
      ground (arith, far, bound, there) in
    let behind : leb (p.data_pos + 4) p.data_capacity ≡ false = ground (arith, small, far) in
    rw (fits, behind) refl

-- readExceptionCode, on a parcel of less than 2^31 bytes that stands within its data before a code
-- of -128 and a header size that leads from there to one of the last four addresses, returns 0,
-- and the next readInt32 reads outside the memory of the parcel.
pub read_exception_code_outside :
    (p : Parcel)
    → IsInside p
    → p.data_pos + 8 ≤ p.data_size
    → read32 p.bytes p.data_pos ≡ 2 ^ 32 - 128
    → 2 ^ 32 - 4 ≤ (p.data_pos + 4 + read32 p.bytes (p.data_pos + 4)) % 2 ^ 32
    → (q : Parcel) × (read_exception_code p ≡ done (0, q)) × (read_int32 q ≡ fault)
unfolding read_exception_code read_int32 read_aligned32 set_data_position
read_exception_code_outside p v there code far =
    let q = record p { data_pos = p.data_pos + 4 } in
    let w : IsInside q = record {
      ordered = omega (arith, there);
      held = v.held;
      small = v.small;
    } in
    let size = read32 p.bytes (p.data_pos + 4) in
    let pos = (p.data_pos + 4 + size) % 2 ^ 32 in
    let first : read_int32 p ≡ done (2 ^ 32 - 128, q) =
      read_int32_is p v (omega (arith, there)) ∙ ap (λ n. done (n, q)) code in
    let second = read_int32_is q w (omega (arith, there)) in
    (
      record q { data_pos = pos; next_object_hint = 0 },
      rw (first, second) refl,
      reads_outside (record q { data_pos = pos; next_object_hint = 0 }) v.small far (omega arith)
          (omega (arith, there)),
    )

-- writeInplace, on a new parcel, for a multiple of four bytes from which growData computes a size
-- that wraps once and is not 0, where there is memory of that size, gives a place for the bytes
-- and sets the data size to their number, while the memory that it got is smaller.
pub write_inplace_wraps :
    (h : Heap) (refs : List RefCall) (len : ℕ)
    → h.room (len * 3 % 2 ^ 32 / 2) ≡ true
    → len % 4 ≡ 0
    → 2 ^ 32 + 2 ≤ len * 3
    → len < 2 ^ 32 - 4
    → (q : Parcel) × (write_inplace h (init_state refs) len ≡ done (some 0, q))
      × (q.data_size ≡ len)
      × (q.data_capacity < len)
unfolding write_inplace grow_data continue_write finish_write
write_inplace_wraps h refs len room whole large small =
    let pad : pad_size len ≡ len = omega (arith, whole, small) in
    let no_wrap : (0 + len) % 2 ^ 32 ≡ len = omega (arith, small) in
    let before : ltb len 0 ≡ false = ground arith in
    let more : leb len 0 ≡ false = ground (arith, large) in
    let zero_plus : 0 + len ≡ len = omega arith in
    let longer : leb (len * 3 % 2 ^ 32 / 2) 0 ≡ false = ground (arith, large, small) in
    let same : (len == len) ≡ true = ground arith in
    let longest : ltb 0 len ≡ true = ground (arith, large) in
    (
      record (init_state refs) {
        has_data = true;
        bytes = h.junk;
        data_size = len;
        data_pos = len;
        data_capacity = len * 3 % 2 ^ 32 / 2;
      },
      rw (pad, no_wrap, before, more, zero_plus, longer, room, same) (rw (no_wrap, longest) refl),
      refl,
      omega (arith, large, small),
    )
