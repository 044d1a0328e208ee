-- ===== src/Driver/Tests/RefTests.antt =====
-- A process with references to two nodes, and the reference to a third.
use cdroid.Driver.Tests.Sample.{plain}
use cdroid.Driver.Rbtree.{link_by, search_by, node, leaf}
use cdroid.Driver.Node.{new_node}
use cdroid.Driver.Kernel.{ok, Result}
use cdroid.Driver.Ref.{free_desc, add_ref, new_ref, binder_get_ref_for_node}
use cdroid.Driver.Store.{put_at, desc_of, Store, Node}
use cdroid.Prelude.{◌&&◌, ◌≡◌, leb, some, Option, ℕ, if◌then◌else◌, List, none, refl, ◌∷◌, []}

abbrev pub nothing : Store
nothing = record {
  node = λ a. none;
  ref = λ a. none;
  owner = λ p. record { nodes = leaf; refs_by_desc = leaf; refs_by_node = leaf; todo = 900 };
  queue = λ l. [];
  dead_nodes = [];
  context_mgr_node = 100;
  last_id = 0;
}

abbrev pub bare : Node
bare = new_node nothing 7 0 0

abbrev two_refs : Store
two_refs = record nothing {
  node = λ a. if leb 101 a && leb a 103 then some bare else none;
  ref =
      put_at 201 (some (new_ref nothing 7 101 1))
        (put_at 202 (some (new_ref nothing 7 102 3)) (λ a. none));
  owner =
      put_at 7
        (record (nothing.owner 7) {
          refs_by_desc = node leaf 201 (node leaf 202 leaf);
          refs_by_node = node leaf 201 (node leaf 202 leaf);
        })
        nothing.owner;
}

abbrev both : List ℕ
both = 201 ∷ 202 ∷ []

abbrev third : Result (Option ℕ × Store) → ℕ
third (ok r) = desc_of r.1 203
third _ = 0

third_desc : third (binder_get_ref_for_node plain two_refs 7 103 (some 203)) ≡ 2
unfolding binder_get_ref_for_node add_ref free_desc search_by link_by
third_desc = refl
