-- ===== src/Driver/Store.antt =====
-- The nodes and references of driver/binder.c: struct binder_node, struct binder_ref and the trees of
-- struct binder_proc that hold them. Objects are named by their addresses, 0 is a null pointer; a
-- node's work item has the address of the node, and a list that of its head. Counters of type int
-- are their 32 bits.
use cdroid.Driver.Rbtree.{Tree}
use cdroid.Prelude.{
  ℕ, ◌+◌, ◌-◌, ◌%◌, ◌^◌, Bool, List, [], ◌∷◌, ◌++◌, Option, none, some, ◌==◌, if◌then◌else◌, erase,
}

-- `refs` is the hlist of references, `entry` the list that the work item is in.
pub record Node : Type 0 where
  pub debug_id : ℕ
  pub proc : Option ℕ
  pub refs : List ℕ
  pub entry : Option ℕ
  pub internal_strong_refs : ℕ
  pub local_weak_refs : ℕ
  pub local_strong_refs : ℕ
  pub ptr : ℕ
  pub cookie : ℕ
  pub has_strong_ref : Bool
  pub pending_strong_ref : Bool
  pub has_weak_ref : Bool
  pub pending_weak_ref : Bool
  pub has_async_transaction : Bool
  pub accept_fds : Bool
  pub min_priority : ℕ
  pub async_todo : List ℕ

pub record Ref : Type 0 where
  pub debug_id : ℕ
  pub proc : ℕ
  pub node : ℕ
  pub desc : ℕ
  pub strong : ℕ
  pub weak : ℕ
  pub death : Option ℕ

-- The trees of a process and the head of its work list.
pub record Owner : Type 0 where
  pub nodes : Tree
  pub refs_by_desc : Tree
  pub refs_by_node : Tree
  pub todo : ℕ

-- What is at an address, `none` where nothing is allocated; `queue` are the work lists.
pub record Store : Type 0 where
  pub node : ℕ → Option Node
  pub ref : ℕ → Option Ref
  pub owner : ℕ → Owner
  pub queue : ℕ → List ℕ
  pub dead_nodes : List ℕ
  pub context_mgr_node : ℕ
  pub last_id : ℕ

abbrev pub inc32 : ℕ → ℕ
inc32 x = (x + 1) % 2 ^ 32

abbrev pub dec32 : ℕ → ℕ
dec32 x = (x + (2 ^ 32 - 1)) % 2 ^ 32

abbrev pub put_at {ℓ} : {A : Type ℓ} → ℕ → A → (ℕ → A) → ℕ → A
put_at a v f b = if b == a then v else f b

abbrev pub put_node : Store → ℕ → Node → Store
put_node s a n = record s { node = put_at a (some n) s.node }

abbrev pub put_ref : Store → ℕ → Ref → Store
put_ref s a r = record s { ref = put_at a (some r) s.ref }

abbrev pub put_owner : Store → ℕ → Owner → Store
put_owner s p o = record s { owner = put_at p o s.owner }

-- list_del_init(&node->work.entry)
abbrev pub list_del_init : Store → ℕ → Node → Store
list_del_init s a n = elim n.entry [
  | none ↦ s
  | some l ↦
      put_node (record s { queue = put_at l (erase a (s.queue l)) s.queue }) a
        (record n { entry = none })
]

-- list_add_tail(&node->work.entry, l)
abbrev pub list_add_tail : Store → ℕ → Node → ℕ → Store
list_add_tail s a n l =
    put_node (record s { queue = put_at l (s.queue l ++ a ∷ []) s.queue }) a
      (record n { entry = some l })

-- The keys of the trees.
abbrev pub ptr_of : Store → ℕ → ℕ
ptr_of s a = elim (s.node a) [ none ↦ 0 | some n ↦ n.ptr ]

abbrev pub desc_of : Store → ℕ → ℕ
desc_of s a = elim (s.ref a) [ none ↦ 0 | some r ↦ r.desc ]

abbrev pub node_of : Store → ℕ → ℕ
node_of s a = elim (s.ref a) [ none ↦ 0 | some r ↦ r.node ]
