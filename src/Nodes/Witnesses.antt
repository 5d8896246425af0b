-- ===== src/Nodes/Witnesses.antt =====
-- The theorems on nodes at a concrete tree.
use personal_project.Common.{ℕ, ◌≡◌, refl, List, [], ◌∷◌}
use personal_project.Nodes.{expression, statement, ProgramNode, node, end, more, get_char, traverse}
use personal_project.Nodes.Walk.{preorder, visit_each, traverse-preorder}

abbrev leaf : ℕ → ProgramNode
leaf c = node expression c end

abbrev tree : ProgramNode
tree =
    node statement b'a' (more (node statement b'b' (more (leaf b'c') end)) (more (leaf b'd') end))

abbrev note : ProgramNode → List ℕ → List ℕ
note n seen = get_char n ∷ seen

traverse-preorder_example : traverse note tree [] ≡ visit_each note (preorder tree) []
traverse-preorder_example = traverse-preorder note tree []

visited : traverse note tree [] ≡ b'd' ∷ b'c' ∷ b'b' ∷ b'a' ∷ []
unfolding traverse
visited = refl
