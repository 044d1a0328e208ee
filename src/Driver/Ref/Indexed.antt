-- ===== src/Driver/Ref/Indexed.antt =====
-- The references of a process, found by descriptor and by node, and what binder_get_ref_for_node adds
-- to them.
use cdroid.Driver.Ref.Desc.{IsLeast}
use cdroid.Driver.Ref.{free_desc, first_desc, new_ref}
use cdroid.Driver.Rbtree.Holds.{Holds}
use cdroid.Prelude.{◌^◌, ◌+◌, ◌≤◌, ◌∷◌, ◌⊎◌, count, ◌<◌, some, Option, none, ◌≡◌, List, ◌≢◌, ℕ}
use cdroid.Driver.Store.{inc32, put_owner, node_of, Node, desc_of, put_ref, Store}
use cdroid.Driver.Rbtree.{inorder, link_by, Rb}

-- Both trees hold the references `want`, each once, and no two have the same descriptor or node.
pub record IsIndexed (s : Store) (p : ℕ) (want : List ℕ) : Type 0 where
  pub by_desc : Holds (desc_of s) (s.owner p).refs_by_desc want
  pub by_node : Holds (node_of s) (s.owner p).refs_by_node want
  pub live : (a : ℕ) → 0 < count a want → s.ref a ≢ none
  pub once : (a : ℕ) → count a want ≤ 1
  pub own_desc : (a b : ℕ) → 0 < count a want → 0 < count b want → desc_of s a ≡ desc_of s b → a ≡ b
  pub own_node : (a b : ℕ) → 0 < count a want → 0 < count b want → node_of s a ≡ node_of s b → a ≡ b

-- No reference is found, one that was there, or a new one with the least descriptor that is free.
abbrev pub Got : Store → Store → ℕ → List ℕ → ℕ → Option ℕ → Type 0
Got s q p want node none = q ≡ s
Got s q p want node (some a) =
    ((0 < count a want) × (node_of s a ≡ node) × (q ≡ s))
    ⊎ (IsIndexed q p (a ∷ want)
        × (node_of q a ≡ node)
        × IsLeast (desc_of s) (first_desc s node) want (desc_of q a))

module _ (rb : Rb) (s : Store) (p node a d : ℕ) (want : List ℕ) (v : IsIndexed s p want)
    (fresh : s.ref a ≡ none) where
  abbrev with_ref : Store
  with_ref = put_ref s a (new_ref s p node d)

  abbrev linked : (ℕ → Option Node) → Store
  linked f =
      record (put_owner with_ref p (record (s.owner p) {
        refs_by_node = rb.insert_color (link_by (node_of with_ref) node a (s.owner p).refs_by_node);
        refs_by_desc = rb.insert_color (link_by (desc_of with_ref) d a (s.owner p).refs_by_desc);
      })) { last_id = inc32 s.last_id; node = f }

module _ (rb : Rb) (s : Store) (p node : ℕ) (want : List ℕ) (new : Option ℕ)
    (v : IsIndexed s p want) (alive : node ≢ 0 → s.node node ≢ none)
    (fresh : (a : ℕ) → new ≡ some a → s.ref a ≡ none)
    (room : (x : ℕ) → 0 < count x want → desc_of s x + 1 < 2 ^ 32) where
  abbrev picked : ℕ
  picked = free_desc (desc_of s) (first_desc s node) (inorder (s.owner p).refs_by_desc)
