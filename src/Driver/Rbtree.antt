-- ===== src/Driver/Rbtree.antt =====
-- The red-black trees of driver/binder.c. A tree links objects, each named by its address. The
-- driver walks and links the nodes itself; the rebalancing rb_insert_color and rb_erase are the
-- kernel's, and a parameter: they keep the order of the nodes.
pub mod Search
pub mod Holds
use cdroid.Prelude.{
  ℕ, ◌<◌, ◌≤◌, ◌≡◌, Bool, true, false, not, List, [], ◌∷◌, ◌++◌, Option, none, some, ltb,
  if◌then◌else◌, All, erase,
}

pub data Tree : Type 0 where
  leaf : Tree
  node : Tree → ℕ → Tree → Tree

-- The nodes from rb_first by rb_next.
abbrev pub inorder : Tree → List ℕ
inorder leaf = []
inorder (node l x r) = inorder l ++ x ∷ inorder r

-- The kernel's part.
pub record Rb : Type 0 where
  pub insert_color : Tree → Tree
  pub rb_erase : ℕ → Tree → Tree
  pub inorder-insert_color : (t : Tree) → inorder (insert_color t) ≡ inorder t
  pub inorder-rb_erase : (x : ℕ) (t : Tree) → inorder (rb_erase x t) ≡ erase x (inorder t)

-- The walk that looks a key up: left below it, right above it.
unfoldable pub search_by : (ℕ → ℕ) → ℕ → Tree → Option ℕ
search_by key k leaf = none
search_by key k (node l x r) =
    let left = search_by key k l in
    let right = search_by key k r in
    if ltb k (key x) then left else if ltb (key x) k then right else some x

-- Whether each node that this walk looks at passes a test.
unfoldable pub search_visits : (ℕ → ℕ) → (ℕ → Bool) → ℕ → Tree → Bool
search_visits key test k leaf = true
search_visits key test k (node l x r) =
    let left = search_visits key test k l in
    let right = search_visits key test k r in
    if not (test x)
    then false
    else if ltb k (key x)
    then left
    else if ltb (key x) k
    then right
    else true

-- The walk that finds the place of a new node, and rb_link_node there: left where the key is
-- smaller, else right.
unfoldable pub link_by : (ℕ → ℕ) → ℕ → ℕ → Tree → Tree
link_by key k new leaf = node leaf new leaf
link_by key k new (node l x r) =
    let left = node (link_by key k new l) x r in
    let right = node l x (link_by key k new r) in if ltb k (key x) then left else right

-- Whether each node that this walk looks at passes a test.
unfoldable pub link_visits : (ℕ → ℕ) → (ℕ → Bool) → ℕ → Tree → Bool
link_visits key test k leaf = true
link_visits key test k (node l x r) =
    let left = link_visits key test k l in
    let right = link_visits key test k r in
    if not (test x) then false else if ltb k (key x) then left else right

-- In ascending order of the keys.
abbrev pub IsSorted : (ℕ → ℕ) → List ℕ → Type 0
IsSorted key [] = Unit {0}
IsSorted key (x ∷ xs) = All (λ y. key x ≤ key y) xs × IsSorted key xs
