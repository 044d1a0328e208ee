-- ===== src/Driver/Buffer/Granting.antt =====
-- take_buffer of driver/binder.c at a free buffer that is large enough: it succeeds, the buffers
-- stay valid, and the list shows the allocation.
use cdroid.Driver.Buffer.Taken.{Granted}
use cdroid.Driver.Kernel.{ok}
use cdroid.Driver.Rbtree.{Rb, search_by}
use cdroid.Driver.Rbtree.Holds.{Holds-absent}
use cdroid.Driver.Buffer.{
  sub64, Buffer, Proc, sizeof_buffer, area_end, next_addr, binder_buffer_size,
}
use cdroid.Driver.Buffer.Alloc.{request_size, kept_size, take_buffer}
use cdroid.Driver.Buffer.Taking
use cdroid.Driver.Buffer.Taking.{taken}
use cdroid.Driver.Buffer.Taken
use cdroid.Driver.Buffer.Tiling.{
  Tiles-le, addrs, Absent, addrs-append, count-addrs-Absent, Tiles-Absent, size_in-middle,
  Tiles-append_right,
}
use cdroid.Driver.Buffer.Valid.{IsValid}
use cdroid.Prelude.{
  if◌then◌else◌, ℕ, ◌+◌, ◌-◌, ◌≤◌, ◌<◌, ◌≡◌, ◌⊎◌, refl, subst, Bool, true, false, List, ◌∷◌, ◌++◌,
  none, inl, inr, arith, leb, Bool-cases, count, count-append,
}

-- What follows the taken buffer at `a`: what followed it before, where there is no room for another
-- one, or a new free buffer first that begins where the transaction ends.
abbrev pub RestIs : Proc → ℕ → ℕ → List Buffer → List Buffer → Type 0
RestIs p a size post rest =
    ((rest ≡ post) × (next_addr (area_end p) post ≤ a + sizeof_buffer + size + sizeof_buffer + 4))
    ⊎ ((new : Buffer) × (rest ≡ new ∷ post)
        × (new.free ≡ true)
        × (new.addr ≡ a + sizeof_buffer + size)
        × (a + sizeof_buffer + size + sizeof_buffer + 4 < next_addr (area_end p) post))

-- What becomes of the list: the buffer at `a` is taken for the transaction, and what follows it is
-- as before, or is led by a new free buffer that begins where the transaction ends. An asynchronous
-- one takes its size and its header of the space for these.
pub record Allocated (p q : Proc) (a data_size offsets_size : ℕ) (is_async : Bool) : Type 0 where
  pub pre : List Buffer
  pub post : List Buffer
  pub found : Buffer
  pub rest : List Buffer
  pub at : a ≡ found.addr
  pub was_free : found.free ≡ true
  pub before : p.buffers ≡ pre ++ found ∷ post
  pub after : q.buffers ≡ pre ++ taken found data_size offsets_size is_async ∷ rest
  pub rest_is : RestIs p a (request_size data_size offsets_size) post rest
  pub space :
      p.free_async_space
      ≡ q.free_async_space
        + (if is_async then request_size data_size offsets_size + sizeof_buffer else 0)

pub pages-IsValid : (p : Proc) (pages : ℕ → Bool) → IsValid p → IsValid (record p { pages = pages })
unfolding binder_buffer_size
pages-IsValid p pages v = record {
  tiles = v.tiles;
  coalesced = v.coalesced;
  fits = v.fits;
  free_tree = v.free_tree;
  allocated_tree = v.allocated_tree;
  async = v.async;
  area = v.area;
}

module _ (rb : Rb) (p0 : Proc) (pre post : List Buffer) (b : Buffer) (data_size offsets_size : ℕ)
    (is_async : Bool) where
  abbrev size : ℕ
  size = request_size data_size offsets_size

  abbrev from : Proc
  from = record p0 { buffers = pre ++ b ∷ post }

  abbrev whole : ℕ
  whole = binder_buffer_size from b.addr

  module _ (v : IsValid from) (was_free : b.free ≡ true) (large : size ≤ whole)
      (granted : Granted p0 data_size offsets_size is_async) where
    absent : Absent b.addr pre
    absent = (Tiles-Absent b post p0.buffer (area_end p0) pre v.tiles).0

    whole_is : whole ≡ next_addr (area_end p0) post - (b.addr + sizeof_buffer)
    unfolding binder_buffer_size
    whole_is = size_in-middle b post (area_end p0) pre absent

    room : b.addr + sizeof_buffer + size ≤ next_addr (area_end p0) post
    room = omega (
      arith,
      whole_is,
      (Tiles-append_right (area_end p0) p0.buffer pre (b ∷ post) v.tiles).1,
      large,
    )

    unlisted : search_by (λ x. x) b.addr p0.allocated_buffers ≡ none
    unlisted =
        Holds-absent rb (λ x. x) p0.allocated_buffers (addrs false (pre ++ b ∷ post))
          v.allocated_tree b.addr
          λ a c e. absurd (
            omega (arith, subst (λ y. 0 < count y (addrs false (pre ++ b ∷ post))) e c, not_listed))
      where
        not_listed : count b.addr (addrs false (pre ++ b ∷ post)) ≡ 0
        not_listed =
            rw (addrs-append false pre (b ∷ post), was_free)
              (omega (
                arith,
                count-append b.addr (addrs false pre) (addrs false post),
                count-addrs-Absent b.addr false pre absent,
                count-addrs-Absent b.addr false post
                    (Tiles-Absent b post p0.buffer (area_end p0) pre v.tiles).1,
              ))

    spent :
        p0.free_async_space
        ≡ (if is_async
            then sub64 p0.free_async_space (size + sizeof_buffer)
            else p0.free_async_space)
          + (if is_async then size + sizeof_buffer else 0)
    spent = ground (
      arith,
      granted.0,
      room,
      v.async,
      v.area,
      Tiles-le (area_end p0) (next_addr (area_end p0) post) post
          (Tiles-append_right (area_end p0) p0.buffer pre (b ∷ post) v.tiles).2,
    )

    -- The taking of a free buffer that is large enough succeeds, and the buffers stay valid.
    pub take-IsValid :
        (exact : Bool)
        → exact ≡ leb whole size
        → (q : Proc) × (take_buffer rb from b.addr
              (kept_size whole size exact)
              size
              data_size
              offsets_size
              is_async
            ≡ ok q)
          × IsValid q
          × Allocated from q b.addr data_size offsets_size is_async
    take-IsValid exact e =
        let walk =
          Taken.walk_allocated rb p0 pre post b absent data_size offsets_size is_async v was_free
            room granted in
        elim (Bool-cases (leb whole (size + sizeof_buffer + 4))) [
          | inl near ↦
              let kept : kept_size whole size exact ≡ size = ground arith in
              (
                Taking.whole_taken rb p0 pre post b absent size data_size offsets_size is_async,
                rw kept (
                    Taking.take_whole rb p0 pre post b absent size data_size offsets_size is_async
                      unlisted walk),
                Taken.whole_taken-IsValid rb p0 pre post b absent data_size offsets_size is_async v
                    was_free room granted,
                record {
                  pre = pre;
                  post = post;
                  found = b;
                  rest = post;
                  at = refl;
                  was_free = was_free;
                  before = refl;
                  after = refl;
                  rest_is = inl (refl, ground (arith, whole_is));
                  space = spent;
                },
              )
          | inr far ↦
              let kept : kept_size whole size exact ≡ size + sizeof_buffer = ground arith in
              let behind : b.addr + sizeof_buffer + size + sizeof_buffer
                  ≤ next_addr (area_end p0) post =
                ground (arith, whole_is) in
              (
                Taking.split_taken rb p0 pre post b absent size data_size offsets_size is_async,
                rw kept (
                    Taking.take_split rb p0 pre post b absent size data_size offsets_size is_async
                      unlisted walk (size + sizeof_buffer) (λ f. omega arith)
                      (Taken.fresh-Absent_pre rb p0 pre post b absent data_size offsets_size
                        is_async v was_free room granted behind)
                      (Taken.walk_free rb p0 pre post b absent data_size offsets_size is_async v
                        was_free room granted behind
                        (binder_buffer_size
                          (Taking.divided rb p0 pre post b absent size data_size offsets_size
                            is_async)
                          (b.addr + sizeof_buffer + size)))),
                Taken.split_taken-IsValid rb p0 pre post b absent data_size offsets_size is_async v
                    was_free room granted behind,
                record {
                  pre = pre;
                  post = post;
                  found = b;
                  rest = Taken.fresh rb p0 pre post b absent data_size offsets_size is_async ∷ post;
                  at = refl;
                  was_free = was_free;
                  before = refl;
                  after = refl;
                  rest_is = inr (
                    Taken.fresh rb p0 pre post b absent data_size offsets_size is_async,
                    refl,
                    refl,
                    refl,
                    ground (arith, whole_is),
                  );
                  space = spent;
                },
              )
        ]
