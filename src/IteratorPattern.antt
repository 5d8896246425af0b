-- ===== src/IteratorPattern.antt =====
-- IteratorPattern.cpp: a list that grows, its iterators in both directions, and the traverser that uses one.
pub mod Items
pub mod Walk
mod Witnesses
use personal_project.Common.{
  ℕ, zero, suc, ◌+◌, ◌-◌, ◌*◌, ◌%◌, Bool, true, false, Option, none, some, List, [], ◌∷◌, ◌++◌, ltb,
  leb, if◌then◌else◌, length, get_elem?, set, drop,
}
use personal_project.Decimal.{ℤ, pos, negsuc, is_negative}
use personal_project.Integers.{◌+ℤ◌, leb_ℤ}

-- `List`: `size_` and the memory behind `pList_`.
pub record ItemList (A : Type 0) : Type 0 where
  pub size : ℕ
  pub items : List A

-- The new memory from one position on; `fresh` is what `new` leaves at each.
abbrev new_from : {A : Type 0} → (ℕ → A) → ℕ → ℕ → List A
new_from fresh at zero = []
new_from fresh at (suc n) = fresh at ∷ new_from fresh (at + 1) n

-- The position that `Get` reads. For a negative index `index % size_` is negative too, so that
-- `size_ - index % size_` is a sum.
abbrev pub slot : ℕ → ℤ → ℕ
slot size (pos i) = i % size
slot size (negsuc i) = (size + (i + 1) % size) % size

module _ {A : Type 0} where
  abbrev pub count : ItemList A → ℕ
  count l = l.size

  -- `none` is a read outside of the memory.
  unfoldable pub get : ItemList A → ℤ → Option A
  get l index = get_elem? l.items (slot l.size index)

  module _ (fresh : ℕ → A) where
    unfoldable pub new_list : ℕ → ItemList A
    new_list size = record { size = size; items = new_from fresh 0 size }

    -- Twice the memory, with the old items copied into it.
    unfoldable pub doubled : ItemList A → ItemList A
    doubled l = record {
      size = l.size * 2;
      items = l.items ++ new_from fresh l.size (l.size * 2 - l.size);
    }

    -- `none` is a write in front of the memory.
    unfoldable pub set_item : ℤ → A → ItemList A → Option (ItemList A)
    unfolding doubled
    set_item (negsuc i) item l = none
    set_item (pos i) item l =
        if ltb i l.size then some (record l { items = set l.items i item }) else some (doubled l)

-- `Iterator`: where `First` stands, how `Next` moves on, and what the other two say of a place;
-- `current_item` gives `none` where `CurrentItem` throws.
pub record Iterator (A : Type 0) : Type 0 where
  pub first : ℤ
  pub next : ℤ → ℤ
  pub is_done : ℤ → Bool
  pub current_item : ℤ → Option A

module _ {A : Type 0} (l : ItemList A) where
  abbrev past_end : ℤ → Bool
  past_end current = leb_ℤ (pos (count l)) current

  abbrev pub list_iterator : Iterator A
  list_iterator = record {
    first = pos 0;
    next = λ current. current +ℤ pos 1;
    is_done = past_end;
    current_item = λ current. if past_end current then none else get l current;
  }

  abbrev pub reverse_list_iterator : Iterator A
  reverse_list_iterator = record {
    first = pos (count l) +ℤ negsuc 0;
    next = λ current. current +ℤ negsuc 0;
    is_done = is_negative;
    current_item = λ current. if is_negative current then none else get l current;
  }

-- How `Traverse` ends, with the traverser's own state.
pub data Outcome (S : Type 0) : Type 0 where
  returned : Bool → S → Outcome S
  out_of_bounds : S → Outcome S

module _ {A S : Type 0} (process_item : A → S → Bool × S) (it : Iterator A) where
  -- The loop of `Traverse`; `none` if it does not end in so many rounds.
  unfoldable pub traverse_from : ℕ → ℤ → Bool → S → Option (Outcome S)
  traverse_from zero current result s = none
  traverse_from (suc fuel) current result s = elim (it.is_done current) [
    | true ↦ some (returned result s)
    | false ↦ elim (it.current_item current) [
      | none ↦ some (out_of_bounds s)
      | some item ↦ elim ((process_item item s).0) [
        | true ↦ traverse_from fuel (it.next current) true (process_item item s).1
        | false ↦ some (returned false (process_item item s).1)
      ]
    ]
  ]

  unfoldable pub traverse : ℕ → S → Option (Outcome S)
  unfolding traverse_from
  traverse fuel s = traverse_from fuel it.first false s

-- `GetNbItems::ProcessItem`
abbrev pub count_item : {A : Type 0} → A → ℕ → Bool × ℕ
count_item item count = (true, count + 1)
