-- ===== src/Driver/Buffer/Taken.antt =====
-- An allocation by binder_alloc_buf of driver/binder.c keeps the buffers valid.
use cdroid.Driver.Buffer.Insert.{listed_free-addrs, listed_taken-addrs}
use cdroid.Driver.Rbtree.{search_visits, Rb}
use cdroid.Driver.Rbtree.Holds.{
  Holds-search_visits, Holds-link_visits, Holds, Holds-link_by, Holds-erase, Holds-rekey,
}
use cdroid.Driver.Buffer.{
  listed_free, listed_taken, link_visits, sub64, Buffer, Proc, sizeof_buffer, area_end, next_addr,
  binder_buffer_size,
}
use cdroid.Driver.Buffer.Alloc.{request_size}
use cdroid.Driver.Buffer.Taking
use cdroid.Driver.Buffer.Taking.{taken}
use cdroid.Driver.Buffer.Tiling.{
  Tiles, Coalesced, addrs, last_free, Absent, Tiles-append, Tiles-append_left, Tiles-append_right,
  Tiles-Absent, Tiles-le, Coalesced-append, Coalesced-append_left, Coalesced-append_right,
  Coalesced_weaken, addrs-append, size_in_replace, uncounted,
}
use cdroid.Driver.Buffer.Valid.{
  async_used, IsValid, async_used-append, Fits-append, Fits-append_left, Fits-append_right,
}
use cdroid.Prelude.{
  ap, ℕ, ◌+◌, ◌%◌, ◌/◌, ◌^◌, ◌≤◌, ◌<◌, ◌≡◌, ◌≢◌, refl, ◌∙◌, sym, Bool, true, false, List, [], ◌∷◌,
  ◌++◌, arith, if◌then◌else◌, All-append_left, count, count-append, append_assoc,
}

-- What the guards of an allocation have found.
abbrev pub Granted : Proc → ℕ → ℕ → Bool → Type 0
Granted p data_size offsets_size is_async =
    (is_async ≡ true
      → (request_size data_size offsets_size + sizeof_buffer) % 2 ^ 64 ≤ p.free_async_space)
    × (data_size ≤ request_size data_size offsets_size)
    × (offsets_size ≤ request_size data_size offsets_size)

module _ (rb : Rb) (p0 : Proc) (pre post : List Buffer) (b : Buffer) (n : Absent b.addr pre)
    (data_size offsets_size : ℕ) (is_async : Bool) where
  abbrev pub size : ℕ
  size = request_size data_size offsets_size

  abbrev pub stop : ℕ
  stop = area_end p0

  abbrev pub now : Buffer
  now = taken b data_size offsets_size is_async

  abbrev pub fresh : Buffer
  fresh = Taking.new rb p0 pre post b n size data_size offsets_size is_async

  abbrev pub from : Proc
  from = record p0 { buffers = pre ++ b ∷ post }

  module _ (v : IsValid from) (was_free : b.free ≡ true)
      (room : b.addr + sizeof_buffer + size ≤ next_addr stop post)
      (granted : Granted p0 data_size offsets_size is_async) where
    left : Tiles p0.buffer b.addr pre
    left = Tiles-append_left stop p0.buffer pre (b ∷ post) v.tiles

    right : Tiles b.addr stop (b ∷ post)
    right = Tiles-append_right stop p0.buffer pre (b ∷ post) v.tiles

    beside : Coalesced (last_free false pre) (b ∷ post)
    beside = Coalesced-append_right false pre (b ∷ post) v.coalesced

    behind : Coalesced true post
    behind = rw was_free at beside.1

    count_free :
        (a : ℕ)
        → count a (addrs true (pre ++ b ∷ post))
          ≡ count a (b.addr ∷ []) + count a (addrs true (pre ++ now ∷ post))
    count_free a =
        rw (addrs-append true pre (b ∷ post), addrs-append true pre (now ∷ post), was_free)
          (omega (
            arith,
            count-append a (addrs true pre) (b.addr ∷ addrs true post),
            count-append a (addrs true pre) (addrs true post),
          ))

    count_allocated :
        (a : ℕ)
        → count a (addrs false (pre ++ now ∷ post))
          ≡ count a (b.addr ∷ []) + count a (addrs false (pre ++ b ∷ post))
    count_allocated a =
        rw (addrs-append false pre (b ∷ post), addrs-append false pre (now ∷ post), was_free)
          (omega (
            arith,
            count-append a (addrs false pre) (b.addr ∷ addrs false post),
            count-append a (addrs false pre) (addrs false post),
          ))

    space_left :
        (xs : List Buffer)
        → async_used xs ≡ async_used post
        → (if is_async
              then sub64 p0.free_async_space (size + sizeof_buffer)
              else p0.free_async_space)
            + async_used (pre ++ now ∷ xs)
          ≤ p0.buffer_size / 2
    space_left xs e =
        rw (async_used-append pre (now ∷ xs), e)
          (ground (
            arith,
            v.async,
            async_used-append pre (b ∷ post),
            Tiles-le stop (next_addr stop post) post right.2,
            granted.0,
          ))

    abbrev held : Buffer
    held = Taking.held rb p0 pre post b n size data_size offsets_size is_async

    -- The insertion among the allocated buffers meets allocated buffers only.
    pub walk_allocated :
        search_visits (λ x. x) (listed_taken (pre ++ held ∷ post)) b.addr p0.allocated_buffers
        ≡ true
    walk_allocated =
        Holds-search_visits rb (λ x. x) p0.allocated_buffers (addrs false (pre ++ b ∷ post))
          v.allocated_tree (listed_taken (pre ++ held ∷ post))
          (λ a c.
            listed_taken-addrs p0.buffer stop (pre ++ held ∷ post)
              (Tiles-append stop p0.buffer pre (held ∷ post) left (refl, right.1, right.2)) a
              (omega (
                arith,
                c,
                count_allocated a,
                ap (count a) (addrs-append false pre (held ∷ post)),
                ap (count a) (addrs-append false pre (now ∷ post)),
              )))
          b.addr

    -- Nothing's size changes but the buffer's.
    whole_sizes :
        (a : ℕ)
        → binder_buffer_size
            (Taking.whole_taken rb p0 pre post b n size data_size offsets_size is_async)
            a
          ≡ binder_buffer_size from a
    unfolding binder_buffer_size
    whole_sizes a = size_in_replace stop a pre (now ∷ post) (b ∷ post) refl refl

    erased :
        Holds
          (binder_buffer_size from)
          (rb.rb_erase b.addr p0.free_buffers)
          (addrs true (pre ++ now ∷ post))
    erased =
        Holds-erase rb (binder_buffer_size from) p0.free_buffers (addrs true (pre ++ b ∷ post))
          v.free_tree b.addr (addrs true (pre ++ now ∷ post)) count_free

    pub whole_taken-IsValid :
        IsValid (Taking.whole_taken rb p0 pre post b n size data_size offsets_size is_async)
    whole_taken-IsValid = record {
      tiles = Tiles-append stop p0.buffer pre (now ∷ post) left (refl, right.1, right.2);
      coalesced =
          Coalesced-append false pre (now ∷ post)
            (Coalesced-append_left false pre (b ∷ post) v.coalesced)
            (ground arith, Coalesced_weaken true post behind);
      fits =
          Fits-append stop pre (now ∷ post) (Fits-append_left stop pre (b ∷ post) v.fits)
            (λ _. (room, granted.1, granted.2), (Fits-append_right stop pre (b ∷ post) v.fits).1);
      free_tree =
          Holds-rekey rb (binder_buffer_size from) (rb.rb_erase b.addr p0.free_buffers)
            (addrs true (pre ++ now ∷ post)) erased
            (binder_buffer_size
              (Taking.whole_taken rb p0 pre post b n size data_size offsets_size is_async))
            (λ a c. whole_sizes a);
      allocated_tree =
          Holds-link_by rb (λ x. x) p0.allocated_buffers (addrs false (pre ++ b ∷ post))
            v.allocated_tree b.addr (addrs false (pre ++ now ∷ post)) count_allocated;
      async = space_left post refl;
      area = v.area;
    }

    listed :
        (a : ℕ)
        → 0 < count a (addrs true (pre ++ now ∷ post))
        → 0 < count a (addrs true pre ++ addrs true post)
    listed a c = rw (addrs-append true pre (now ∷ post)) at c

    module _ (rest : fresh.addr + sizeof_buffer ≤ next_addr stop post) where
      tiled : Tiles p0.buffer stop (pre ++ now ∷ fresh ∷ post)
      tiled =
          Tiles-append stop p0.buffer pre (now ∷ fresh ∷ post) left
            (refl, omega arith, (refl, rest, right.2))

      fresh-Absent : Absent fresh.addr (pre ++ now ∷ []) × Absent fresh.addr post
      fresh-Absent =
          Tiles-Absent fresh post p0.buffer stop (pre ++ now ∷ [])
            (rw (append_assoc pre (now ∷ []) (fresh ∷ post)) tiled)

      pub fresh-Absent_pre : Absent fresh.addr pre
      fresh-Absent_pre = All-append_left (λ x. x.addr ≢ fresh.addr) pre (now ∷ []) fresh-Absent.0

      count-fresh :
          (a : ℕ)
          → count a (addrs true (pre ++ now ∷ fresh ∷ post))
            ≡ count a (fresh.addr ∷ []) + count a (addrs true (pre ++ now ∷ post))
      count-fresh a =
          rw (addrs-append true pre (now ∷ fresh ∷ post), addrs-append true pre (now ∷ post))
            (omega (
              arith,
              count-append a (addrs true pre) (fresh.addr ∷ addrs true post),
              count-append a (addrs true pre) (addrs true post),
            ))

      divided_sizes :
          (a : ℕ)
          → 0 < count a (addrs true (pre ++ now ∷ post))
          → binder_buffer_size
              (Taking.divided rb p0 pre post b n size data_size offsets_size is_async)
              a
            ≡ binder_buffer_size from a
      unfolding binder_buffer_size
      divided_sizes a c =
          let b_absent = Tiles-Absent b post p0.buffer stop pre v.tiles in
          let other = uncounted pre post a b.addr n b_absent.1 (listed a c) in
          let other' =
            uncounted pre post a fresh.addr fresh-Absent_pre fresh-Absent.1 (listed a c) in
          size_in_replace stop a pre
            (Taking.held rb p0 pre post b n size data_size offsets_size is_async ∷ fresh ∷ post)
            (b ∷ post) refl (ground arith)

      -- The insertion of the new buffer meets free buffers only.
      pub walk_free :
          (k : ℕ)
          → link_visits
              (binder_buffer_size
                (Taking.divided rb p0 pre post b n size data_size offsets_size is_async))
              (listed_free (pre ++ held ∷ fresh ∷ post))
              k
              (rb.rb_erase b.addr p0.free_buffers)
            ≡ true
      walk_free k =
          let key =
            binder_buffer_size
              (Taking.divided rb p0 pre post b n size data_size offsets_size is_async) in
          let without = rb.rb_erase b.addr p0.free_buffers in
          Holds-link_visits rb key without (addrs true (pre ++ now ∷ post))
            (Holds-rekey rb (binder_buffer_size from) without (addrs true (pre ++ now ∷ post))
              erased key divided_sizes)
            (listed_free (pre ++ held ∷ fresh ∷ post))
            (λ a c.
              listed_free-addrs p0.buffer stop (pre ++ held ∷ fresh ∷ post)
                (Tiles-append stop p0.buffer pre (held ∷ fresh ∷ post) left
                  (refl, omega arith, (refl, rest, right.2)))
                a
                (omega (
                  arith,
                  c,
                  count-fresh a,
                  ap (count a) (addrs-append true pre (held ∷ fresh ∷ post)),
                  ap (count a) (addrs-append true pre (now ∷ fresh ∷ post)),
                )))
            k

      split_sizes :
          (a : ℕ)
          → binder_buffer_size
              (Taking.split_taken rb p0 pre post b n size data_size offsets_size is_async)
              a
            ≡ binder_buffer_size
                (Taking.divided rb p0 pre post b n size data_size offsets_size is_async)
                a
      unfolding binder_buffer_size
      split_sizes a =
          size_in_replace stop a pre (now ∷ fresh ∷ post)
            (Taking.held rb p0 pre post b n size data_size offsets_size is_async ∷ fresh ∷ post)
            refl refl

      split_tree :
          Holds
            (binder_buffer_size
              (Taking.split_taken rb p0 pre post b n size data_size offsets_size is_async))
            (Taking.split_taken rb p0 pre post b n size data_size offsets_size
              is_async).free_buffers
            (addrs true (pre ++ now ∷ fresh ∷ post))
      split_tree =
          let key =
            binder_buffer_size
              (Taking.divided rb p0 pre post b n size data_size offsets_size is_async) in
          let without = rb.rb_erase b.addr p0.free_buffers in
          let rekeyed =
            Holds-rekey rb (binder_buffer_size from) without (addrs true (pre ++ now ∷ post)) erased
              key divided_sizes in
          let linked =
            Holds-link_by rb key without (addrs true (pre ++ now ∷ post)) rekeyed fresh.addr
              (addrs true (pre ++ now ∷ fresh ∷ post)) count-fresh in
          Holds-rekey rb key
            (Taking.split_taken rb p0 pre post b n size data_size offsets_size
              is_async).free_buffers
            (addrs true (pre ++ now ∷ fresh ∷ post)) linked
            (binder_buffer_size
              (Taking.split_taken rb p0 pre post b n size data_size offsets_size is_async))
            (λ a c. split_sizes a)

      same_allocated : addrs false (pre ++ now ∷ fresh ∷ post) ≡ addrs false (pre ++ now ∷ post)
      same_allocated =
          addrs-append false pre (now ∷ fresh ∷ post) ∙ sym (addrs-append false pre (now ∷ post))

      pub split_taken-IsValid :
          IsValid (Taking.split_taken rb p0 pre post b n size data_size offsets_size is_async)
      split_taken-IsValid = record {
        tiles = tiled;
        coalesced =
            Coalesced-append false pre (now ∷ fresh ∷ post)
              (Coalesced-append_left false pre (b ∷ post) v.coalesced)
              (ground arith, (refl, behind));
        fits =
            Fits-append stop pre (now ∷ fresh ∷ post) (Fits-append_left stop pre (b ∷ post) v.fits)
              (
                λ _. (omega arith, granted.1, granted.2),
                (λ f. cc, (Fits-append_right stop pre (b ∷ post) v.fits).1),
              );
        free_tree = split_tree;
        allocated_tree = rw same_allocated (whole_taken-IsValid.allocated_tree);
        async = space_left (fresh ∷ post) (omega arith);
        area = v.area;
      }
