-- ===== src/Driver/Ref.antt =====
-- The references of driver/binder.c, from binder_get_ref to binder_dec_ref. A freed object that is
-- followed is `bug`.
pub mod Desc
pub mod Indexed
pub mod Counts
pub mod Raising
use cdroid.Driver.Node.{binder_inc_node, binder_dec_node}
use cdroid.Driver.Buffer.Mmap.{einval, success, Errno}
use cdroid.Driver.Store.{
  put_at, dec32, put_ref, put_node, desc_of, node_of, inc32, put_owner, Ref, Store,
}
use cdroid.Prelude.{
  [], ◌∷◌, false, ltb, true, ◌^◌, ◌%◌, none, erase, ◌+◌, ◌&&◌, ◌∷◌, some, ◌==◌, List, Bool,
  if◌then◌else◌, Option, ℕ,
}
use cdroid.Driver.Rbtree.{inorder, search_by, link_by, Rb}
use cdroid.Driver.Kernel.{Result, ok, bug, ◌>>=◌}

unfoldable pub binder_get_ref : Store → ℕ → ℕ → Option ℕ
binder_get_ref s p desc = search_by (desc_of s) desc (s.owner p).refs_by_desc

-- The walk for a free descriptor, from rb_first by rb_next.
unfoldable pub free_desc : (ℕ → ℕ) → ℕ → List ℕ → ℕ
free_desc desc d [] = d
free_desc desc d (x ∷ xs) =
    let rest = free_desc desc ((desc x + 1) % 2 ^ 32) xs in if ltb d (desc x) then d else rest

-- Where the walk starts.
abbrev pub first_desc : Store → ℕ → ℕ
first_desc s node = if node == s.context_mgr_node then 0 else 1

abbrev pub new_ref : Store → ℕ → ℕ → ℕ → Ref
new_ref s p node desc = record {
  debug_id = inc32 s.last_id;
  proc = p;
  node = node;
  desc = desc;
  strong = 0;
  weak = 0;
  death = none;
}

-- hlist_add_head(&new_ref->node_entry, &node->refs)
abbrev pub add_to_node : Store → ℕ → ℕ → Result Store
add_to_node s node a = if node == 0 then ok s else elim (s.node node) [
  | none ↦ bug
  | some n ↦ ok (put_node s node (record n { refs = a ∷ n.refs }))
]

-- With the memory for the new reference at `a`, and its descriptor.
unfoldable pub add_ref : Rb → Store → ℕ → ℕ → ℕ → ℕ → Result Store
add_ref rb s p node a d =
    let o = s.owner p in
    let t = put_ref s a (new_ref s p node d) in
    elim (search_by (desc_of s) d o.refs_by_desc) [
      | some _ ↦ bug
      | none ↦
          add_to_node
            (record (put_owner t p (record o {
              refs_by_node = rb.insert_color (link_by (node_of t) node a o.refs_by_node);
              refs_by_desc = rb.insert_color (link_by (desc_of t) d a o.refs_by_desc);
            })) { last_id = inc32 s.last_id })
            node a
    ]

-- `new` is what kzalloc returns.
unfoldable pub binder_get_ref_for_node : Rb → Store → ℕ → ℕ → Option ℕ → Result (Option ℕ × Store)
binder_get_ref_for_node rb s p node new =
    let o = s.owner p in
    elim (search_by (node_of s) node o.refs_by_node) [
      | some r ↦ ok (some r, s)
      | none ↦ elim new [
        | none ↦ ok (none, s)
        | some a ↦
            (add_ref rb s p node a
                (free_desc (desc_of s) (first_desc s node) (inorder o.refs_by_desc))
              >>= λ q. ok (some a, q))
      ]
    ]

-- hlist_del(&ref->node_entry)
abbrev pub del_from_node : Store → ℕ → ℕ → Result Store
del_from_node s node a = elim (s.node node) [
  | none ↦ bug
  | some n ↦ ok (put_node s node (record n { refs = erase a n.refs }))
]

-- list_del(&ref->death->work.entry), from the list it is in
abbrev pub drop_death : Store → Option ℕ → Store
drop_death s none = s
drop_death s (some d) = record s { queue = λ l. erase d (s.queue l) }

abbrev pub untree_ref : Rb → Store → ℕ → ℕ → Store
untree_ref rb s p a = put_owner s p (record (s.owner p) {
  refs_by_desc = rb.rb_erase a (s.owner p).refs_by_desc;
  refs_by_node = rb.rb_erase a (s.owner p).refs_by_node;
})

unfoldable pub binder_delete_ref : Rb → Store → ℕ → Result Store
binder_delete_ref rb s a = elim (s.ref a) [
  | none ↦ bug
  | some r ↦
      let s1 = untree_ref rb s r.proc a in
      (if r.strong == 0 then ok s1 else binder_dec_node rb s1 r.node true true) >>= λ s2.
      del_from_node s2 r.node a >>= λ s3. binder_dec_node rb s3 r.node false true >>= λ s4.
      let s5 = drop_death s4 r.death in ok (record s5 { ref = put_at a none s5.ref })
]

unfoldable pub binder_inc_ref : Store → ℕ → Bool → Option ℕ → Result (Errno × Store)
binder_inc_ref s a strong target = elim (s.ref a) [
  | none ↦ bug
  | some r ↦
      let raised =
        if strong then record r { strong = inc32 r.strong } else record r { weak = inc32 r.weak } in
      if (if strong then r.strong else r.weak) == 0
      then (binder_inc_node s r.node strong true target >>= λ r. elim r.0 [
        | success ↦ ok (success, put_ref r.1 a raised)
        | _ ↦ ok r
      ])
      else ok (success, put_ref s a raised)
]

-- The lowered reference, deleted when both counts are 0.
abbrev pub drop_unused : Rb → Store → ℕ → Ref → Result (Errno × Store)
drop_unused rb s a r =
    if (r.strong == 0) && (r.weak == 0)
    then (binder_delete_ref rb s a >>= λ t. ok (success, t))
    else ok (success, s)

unfoldable pub binder_dec_ref : Rb → Store → ℕ → Bool → Result (Errno × Store)
binder_dec_ref rb s a strong = elim (s.ref a) [
  | none ↦ bug
  | some r ↦
      if strong
      then (if r.strong == 0
          then ok (einval, s)
          else let m = record r { strong = dec32 r.strong } in
            (if m.strong == 0
              then binder_dec_node rb (put_ref s a m) r.node true true
              else ok (put_ref s a m))
            >>= λ t. drop_unused rb t a m)
      else if r.weak == 0
      then ok (einval, s)
      else let m = record r { weak = dec32 r.weak } in drop_unused rb (put_ref s a m) a m
]
