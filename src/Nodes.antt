-- ===== src/Nodes.antt =====
-- Program_Nodes.h and Program_Nodes.cpp: expressions and statements as one tree of nodes.
pub mod Walk
mod Witnesses
use personal_project.Common.{ℕ, Bool, true, false, List, [], ◌∷◌, ◌==◌}

-- The class of a node.
pub data Kind : Type 0 where
  expression statement : Kind

-- A node with its character and its components, in the order in which they were added.
mutual
  pub data ProgramNode : Type 0 where
    node : Kind → ℕ → Nodes → ProgramNode

  pub data Nodes : Type 0 where
    end : Nodes
    more : ProgramNode → Nodes → Nodes

abbrev pub get_char : ProgramNode → ℕ
get_char (node kind c nodes) = c

abbrev pub components : ProgramNode → Nodes
components (node kind c nodes) = nodes

-- `push_back`
abbrev pub push_back : Nodes → ProgramNode → Nodes
push_back end n = more n end
push_back (more m nodes) n = more m (push_back nodes n)

unfoldable pub add_component : ProgramNode → ProgramNode → ProgramNode
add_component (node kind c nodes) n = node kind c (push_back nodes n)

-- Nodes are equal if their characters are.
abbrev pub is_equal : ProgramNode → ProgramNode → Bool
is_equal n m = get_char n == get_char m

-- The loop that finds a component, and its removal.
erase_first : ProgramNode → Nodes → Nodes
erase_first n end = end
erase_first n (more m nodes) = elim (is_equal n m) [
  | true ↦ nodes
  | false ↦ more m (erase_first n nodes)
]

unfoldable pub remove_component : ProgramNode → ProgramNode → ProgramNode
unfolding erase_first
remove_component (node kind c nodes) n = node kind c (erase_first n nodes)

-- A node without its components, which a component of `ProgramNode(const ProgramNode&)` starts as.
unfoldable pub copy_as : Kind → ProgramNode → ProgramNode
copy_as kind n = node kind (get_char n) end

-- `visit` is `CodeGenerator::Visit`, on a state of the generator.
module _ {G : Type 0} (visit : ProgramNode → G → G) where
  unfoldable mutual
    pub traverse : ProgramNode → G → G
    traverse (node kind c nodes) gen = traverse_all nodes (visit (node kind c nodes) gen)

    pub traverse_all : Nodes → G → G
    traverse_all end gen = gen
    traverse_all (more n nodes) gen = traverse_all nodes (traverse n gen)
