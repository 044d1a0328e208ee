-- ===== src/Driver/Node.antt =====
-- binder_get_node, binder_new_node, binder_inc_node and binder_dec_node of driver/binder.c. The
-- statistics and the wake-up of the process are left out.
use cdroid.Driver.Buffer.Mmap.{success, einval, Errno}
use cdroid.Driver.Store.{
  put_at, put_node, ptr_of, list_add_tail, dec32, put_owner, list_del_init, inc32, Store, Node,
}
use cdroid.Prelude.{
  false, erase, none, ◌==◌, ◌||◌, ◌∷◌, not, [], ◌&&◌, Option, some, if◌then◌else◌, true, ℕ, Bool,
  List,
}
use cdroid.Driver.Rbtree.{link_by, search_by, Rb}
use cdroid.Driver.Kernel.{Result, ok, bug}

unfoldable pub binder_get_node : Store → ℕ → ℕ → Option ℕ
binder_get_node s p ptr = search_by (ptr_of s) ptr (s.owner p).nodes

abbrev pub new_node : Store → ℕ → ℕ → ℕ → Node
new_node s p ptr cookie = record {
  debug_id = inc32 s.last_id;
  proc = some p;
  refs = [];
  entry = none;
  internal_strong_refs = 0;
  local_weak_refs = 0;
  local_strong_refs = 0;
  ptr = ptr;
  cookie = cookie;
  has_strong_ref = false;
  pending_strong_ref = false;
  has_weak_ref = false;
  pending_weak_ref = false;
  has_async_transaction = false;
  accept_fds = false;
  min_priority = 0;
  async_todo = [];
}

-- `new` is what kzalloc returns.
unfoldable pub binder_new_node : Rb → Store → ℕ → ℕ → ℕ → Option ℕ → Option ℕ × Store
binder_new_node rb s p ptr cookie new = elim (search_by (ptr_of s) ptr (s.owner p).nodes) [
  | some _ ↦ (none, s)
  | none ↦ elim new [
    | none ↦ (none, s)
    | some a ↦ (
      some a,
      record (put_owner (put_node s a (new_node s p ptr cookie)) p (record (s.owner p) {
        nodes = rb.insert_color (link_by (ptr_of s) ptr a (s.owner p).nodes);
      })) { last_id = inc32 s.last_id },
    )
  ]
]

-- The call that a node without a list to announce it on refuses.
abbrev pub unannounced : Store → ℕ → Node → Option ℕ → Bool
unannounced s a n target =
    elim target [ none ↦ true | some _ ↦ false ]
    && (n.internal_strong_refs == 0)
    && not ((a == s.context_mgr_node) && n.has_strong_ref)

-- Behind a strong increment, to the node `n`.
abbrev pub inc_strong : Store → ℕ → Node → Option ℕ → Result (Errno × Store)
inc_strong s a n target = elim target [
  | none ↦ ok (success, put_node s a n)
  | some l ↦
      if n.has_strong_ref
      then ok (success, put_node s a n)
      else let t = list_del_init (put_node s a n) a n in ok (success, list_add_tail t a n l)
]

-- Behind a weak one.
abbrev pub inc_weak : Store → ℕ → Node → Option ℕ → Result (Errno × Store)
inc_weak s a n target =
    let t = put_node s a n in
    if n.has_weak_ref || elim n.entry [ none ↦ false | some _ ↦ true ]
    then ok (success, t)
    else elim target [ none ↦ ok (einval, t) | some l ↦ ok (success, list_add_tail t a n l) ]

-- `target` is target_list.
unfoldable pub binder_inc_node : Store → ℕ → Bool → Bool → Option ℕ → Result (Errno × Store)
binder_inc_node s a strong internal target = elim (s.node a) [
  | none ↦ bug
  | some n ↦
      if strong
      then (if internal && unannounced s a n target
          then ok (einval, s)
          else inc_strong s a
              (if internal
                then record n { internal_strong_refs = inc32 n.internal_strong_refs }
                else record n { local_strong_refs = inc32 n.local_strong_refs })
              target)
      else inc_weak s a
          (if internal then n else record n { local_weak_refs = inc32 n.local_weak_refs }) target
]

-- binder_dec_node; it always returns 0.
abbrev pub lowered : Node → Bool → Bool → Node
lowered n strong internal =
    if strong
    then (if internal
        then record n { internal_strong_refs = dec32 n.internal_strong_refs }
        else record n { local_strong_refs = dec32 n.local_strong_refs })
    else if internal
    then n
    else record n { local_weak_refs = dec32 n.local_weak_refs }

abbrev pub is_empty : List ℕ → Bool
is_empty [] = true
is_empty (x ∷ xs) = false

abbrev pub still_held : Node → Bool → Bool
still_held n strong =
    if strong
    then not (n.local_strong_refs == 0) || not (n.internal_strong_refs == 0)
    else not (n.local_weak_refs == 0) || not (is_empty n.refs)

-- The node is taken off its work list and out of the tree or the list of dead nodes, and freed.
abbrev pub free_node : Rb → Store → ℕ → Node → Store
free_node rb s a n =
    let t = list_del_init s a n in
    let u : Store = elim n.proc [
      | some p ↦ put_owner t p (record (t.owner p) { nodes = rb.rb_erase a (t.owner p).nodes })
      | none ↦ record t { dead_nodes = erase a t.dead_nodes }
    ] in
    record u { node = put_at a none u.node }

-- The owner is told, or the node is freed when nothing refers to it.
abbrev pub announce : Store → ℕ → Node → ℕ → Store
announce s a n p = elim n.entry [ some _ ↦ s | none ↦ list_add_tail s a n (s.owner p).todo ]

abbrev pub reap : Rb → Store → ℕ → Node → Store
reap rb s a n =
    if is_empty n.refs && (n.local_strong_refs == 0) && (n.local_weak_refs == 0)
    then free_node rb s a n
    else s

-- Behind the decrement, when the count at hand is 0.
abbrev pub dec_last : Rb → Store → ℕ → Node → Store
dec_last rb s a n = elim n.proc [
  | some p ↦ if n.has_strong_ref || n.has_weak_ref then announce s a n p else reap rb s a n
  | none ↦ reap rb s a n
]

unfoldable pub binder_dec_node : Rb → Store → ℕ → Bool → Bool → Result Store
binder_dec_node rb s a strong internal = elim (s.node a) [
  | none ↦ bug
  | some n ↦
      let m = lowered n strong internal in
      if still_held m strong then ok (put_node s a m) else ok (dec_last rb (put_node s a m) a m)
]
