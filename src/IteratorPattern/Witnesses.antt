-- ===== src/IteratorPattern/Witnesses.antt =====
-- A list of three numbers, set, read and traversed.
use personal_project.Common.{
  ℕ, ◌≡◌, refl, arith, Bool, true, false, some, List, [], ◌∷◌, ◌==◌, if◌then◌else◌,
}
use mathlib.Core.List
use personal_project.Decimal.{pos, negsuc}
use personal_project.IteratorPattern.{
  ItemList, get, set_item, new_list, list_iterator, reverse_list_iterator, returned, traverse,
  count_item,
}
use personal_project.IteratorPattern.Items.{IsValid}
use personal_project.IteratorPattern.Walk.{each, traverse-each}

abbrev three : ItemList ℕ
three = record { size = 3; items = 100 ∷ 101 ∷ 102 ∷ [] }

three-IsValid : IsValid three
three-IsValid = (omega arith, refl)

abbrev zeros : ℕ → ℕ
zeros n = 0

-- The index -1 reads the second item.
get_minus_one : get three (negsuc 0) ≡ some 101
unfolding get
get_minus_one = refl

-- The item that was to be set at index 3 is not there.
set_item-lost :
    set_item zeros (pos 3) 7 three
    ≡ some (record { size = 6; items = 100 ∷ 101 ∷ 102 ∷ 0 ∷ 0 ∷ 0 ∷ [] })
unfolding set_item
set_item-lost = refl

-- A traverser that keeps what it has met and stops at 101.
abbrev until_101 : ℕ → List ℕ → Bool × List ℕ
until_101 item met = (if item == 101 then false else true, item ∷ met)

traverse-each_example :
    (traverse until_101 (list_iterator three) 4 [] ≡ some (each until_101 false three.items []))
    × (traverse until_101 (reverse_list_iterator three) 4 []
        ≡ some (each until_101 false (List.reverse three.items) []))
traverse-each_example = traverse-each until_101 three three-IsValid []

traverse_stops :
    traverse until_101 (reverse_list_iterator three) 4 [] ≡ some (returned false (101 ∷ 102 ∷ []))
unfolding traverse get
traverse_stops = refl

get_count : traverse count_item (list_iterator (new_list zeros 10)) 11 0 ≡ some (returned true 10)
unfolding traverse get new_list
get_count = refl
