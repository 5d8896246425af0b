-- ===== src/Nodes/Walk.antt =====
-- The order of a traversal, and components that are added and removed.
use personal_project.Common.{ℕ, ◌≡◌, refl, sym, ap, ◌∙◌, true, false, List, [], ◌∷◌, ◌++◌, eq→==}
use personal_project.Nodes.{
  Kind, ProgramNode, node, Nodes, end, more, get_char, push_back, add_component, is_equal,
  erase_first, remove_component, traverse, traverse_all,
}

-- A node in front of its components, and these one after the other.
unfoldable mutual
  pub preorder : ProgramNode → List ProgramNode
  preorder (node kind c nodes) = node kind c nodes ∷ preorder_all nodes

  pub preorder_all : Nodes → List ProgramNode
  preorder_all end = []
  preorder_all (more n nodes) = preorder n ++ preorder_all nodes

module _ {G : Type 0} (visit : ProgramNode → G → G) where
  abbrev pub visit_each : List ProgramNode → G → G
  visit_each [] gen = gen
  visit_each (n ∷ ns) gen = visit_each ns (visit n gen)

  visit_each-append :
      (ms ns : List ProgramNode) (gen : G)
      → visit_each (ms ++ ns) gen ≡ visit_each ns (visit_each ms gen)
  visit_each-append [] ns gen = refl
  visit_each-append (m ∷ ms) ns gen = visit_each-append ms ns (visit m gen)

  mutual
    unfolding traverse preorder

    walk : (n : ProgramNode) (gen : G) → traverse visit n gen ≡ visit_each (preorder n) gen
    walk (node kind c nodes) gen = walk_all nodes (visit (node kind c nodes) gen)

    walk_all :
        (nodes : Nodes) (gen : G)
        → traverse_all visit nodes gen ≡ visit_each (preorder_all nodes) gen
    walk_all end gen = refl
    walk_all (more n nodes) gen =
        ap (traverse_all visit nodes) (walk n gen)
        ∙ walk_all nodes (visit_each (preorder n) gen)
        ∙ sym (visit_each-append (preorder n) (preorder_all nodes) gen)

  -- `Traverse` visits each node of the tree once, a node before its components, and these in the order
  -- in which they were added.
  pub traverse-preorder :
      (n : ProgramNode) (gen : G) → traverse visit n gen ≡ visit_each (preorder n) gen
  traverse-preorder n gen = walk n gen

-- The components that come first and are not equal to a node.
abbrev pub NoneEqual : ProgramNode → Nodes → Type 0
NoneEqual n end = Unit
NoneEqual n (more m nodes) = (is_equal n m ≡ false) × NoneEqual n nodes

abbrev pub join : Nodes → Nodes → Nodes
join end later = later
join (more m nodes) later = more m (join nodes later)

erase_first-join :
    (n m : ProgramNode) (before later : Nodes)
    → NoneEqual n before
    → is_equal n m ≡ true
    → erase_first n (join before (more m later)) ≡ join before later
unfolding erase_first
erase_first-join n m end later h e = rw (erase_first, e)
erase_first-join n m (more k before) later h e =
    rw (erase_first, h.0) (ap (more k) (erase_first-join n m before later h.1 e))

-- `RemoveComponent` takes out the first component with the character of the given node, whichever node
-- that is, and keeps the order of the others.
remove_component-join :
    (kind : Kind) (c : ℕ) (n m : ProgramNode) (before later : Nodes)
    → NoneEqual n before
    → is_equal n m ≡ true
    → remove_component (node kind c (join before (more m later))) n
      ≡ node kind c (join before later)
unfolding remove_component
remove_component-join kind c n m before later h e =
    ap (node kind c) (erase_first-join n m before later h e)

push_back-join : (nodes : Nodes) (n : ProgramNode) → push_back nodes n ≡ join nodes (more n end)
push_back-join end n = refl
push_back-join (more m nodes) n = ap (more m) (push_back-join nodes n)

join-end : (nodes : Nodes) → join nodes end ≡ nodes
join-end end = refl
join-end (more m nodes) = ap (more m) (join-end nodes)

-- A component that is added to a node with no component of its character, and removed, leaves the node
-- as it was.
pub remove_component-add_component :
    (kind : Kind) (c : ℕ) (nodes : Nodes) (n : ProgramNode)
    → NoneEqual n nodes
    → remove_component (add_component (node kind c nodes) n) n ≡ node kind c nodes
unfolding add_component
remove_component-add_component kind c nodes n h =
    ap (λ t. remove_component (node kind c t) n) (push_back-join nodes n)
    ∙ remove_component-join kind c n n nodes end h (eq→== (get_char n) (get_char n) refl)
    ∙ ap (node kind c) (join-end nodes)
