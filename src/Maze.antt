-- ===== src/Maze.antt =====
-- Prototype.cpp, AbstractFactory.cpp and FactoryMethod.cpp: a maze of rooms, walls and doors, and the
-- factories that make its parts. The classes are the same in the three files; Prototype.cpp adds the copies.
pub mod Enter
pub mod Made
pub mod Create
mod Witnesses
use personal_project.Common.{
  ℕ, zero, suc, ◌+◌, Bool, true, false, Option, none, some, List, [], ◌∷◌, ◌++◌, ◌==◌,
  if◌then◌else◌, length, get_elem?, set,
}
use personal_project.Decimal.{ℤ, pos, negsuc}
use personal_project.Integers.{equal_ℤ}

pub data Direction : Type 0 where
  north south east west : Direction

-- What each side of a room points to; `none` is a null pointer, and a number is the place of an object
-- on the heap.
pub record Sides : Type 0 where
  pub on_north : Option ℕ
  pub on_south : Option ℕ
  pub on_east : Option ℕ
  pub on_west : Option ℕ

abbrev pub no_sides : Sides
no_sides = record { on_north = none; on_south = none; on_east = none; on_west = none }

abbrev pub side_of : Direction → Sides → Option ℕ
side_of north s = s.on_north
side_of south s = s.on_south
side_of east s = s.on_east
side_of west s = s.on_west

abbrev pub with_side : Direction → Option ℕ → Sides → Sides
with_side north p s = record s { on_north = p }
with_side south p s = record s { on_south = p }
with_side east p s = record s { on_east = p }
with_side west p s = record s { on_west = p }

-- `has_bomb` is `none` in a `Room`, and `hasBomb_` in a `RoomWithBomb`.
pub record Room : Type 0 where
  pub number : ℤ
  pub sides : Sides
  pub has_bomb : Option Bool

pub record Door : Type 0 where
  pub is_open : Bool
  pub room1 : Option ℕ
  pub room2 : Option ℕ

-- `wall none` is a `Wall`, and `wall (some b)` a `BombedWall` with `isBombed_`.
pub data MapSite : Type 0 where
  room : Room → MapSite
  wall : Option Bool → MapSite
  door : Door → MapSite

abbrev pub Heap : Type 0
Heap = List MapSite

abbrev pub new_room : ℤ → Room
new_room n = record { number = n; sides = no_sides; has_bomb = none }

abbrev pub new_room_with_bomb : ℤ → Room
new_room_with_bomb n = record { number = n; sides = no_sides; has_bomb = some true }

abbrev pub new_door : Option ℕ → Option ℕ → Bool → Door
new_door r1 r2 open_now = record { is_open = open_now; room1 = r1; room2 = r2 }

-- The copy constructors; that of `RoomWithBomb` calls `Room(int)`.
unfoldable pub clone_room : Room → Room
clone_room r = elim r.has_bomb [
  | none ↦ record { number = r.number; sides = r.sides; has_bomb = none }
  | some b ↦ record { number = r.number; sides = no_sides; has_bomb = some b }
]

abbrev pub initialize_room : ℤ → Room → Room
initialize_room n r = record r { number = n }

abbrev pub initialize_door : Option ℕ → Option ℕ → Bool → Door → Door
initialize_door r1 r2 open_now d = record d { is_open = open_now; room1 = r1; room2 = r2 }

abbrev pub same_place : Option ℕ → Option ℕ → Bool
same_place none none = true
same_place (some p) (some q) = p == q
same_place _ _ = false

unfoldable pub other_side_from : Option ℕ → Door → Option ℕ
other_side_from r d =
    if same_place r d.room1 then d.room2 else if same_place r d.room2 then d.room1 else none

abbrev pub remove_bomb : Room → Room
remove_bomb r = elim r.has_bomb [ none ↦ r | some b ↦ record r { has_bomb = some false } ]

-- What the loop of `RoomWithBomb::Enter` does to a side: it opens a `BombedWall` or a `Door`, and gives
-- `none` at all else, a null pointer included.
blown_site : MapSite → Option MapSite
blown_site (wall (some b)) = some (wall (some true))
blown_site (door d) = some (door (record d { is_open = true }))
blown_site _ = none

blown : Option ℕ → Heap → Option Heap
unfolding blown_site
blown none h = none
blown (some p) h = elim (get_elem? h p) [
  | none ↦ none
  | some s ↦ elim (blown_site s) [ none ↦ none | some t ↦ some (set h p t) ]
]

blow_up : List (Option ℕ) → Heap → Bool × Heap
blow_up [] h = (true, h)
blow_up (s ∷ ss) h = elim (blown s h) [ none ↦ (false, h) | some g ↦ blow_up ss g ]

-- The sides in the order of `Direction`.
abbrev pub all_sides : Sides → List (Option ℕ)
all_sides s = s.on_north ∷ s.on_south ∷ s.on_east ∷ s.on_west ∷ []

enter_room : Room → Heap → Bool × Heap
unfolding blow_up blown
enter_room r h = elim r.has_bomb [ none ↦ (true, h) | some b ↦ blow_up (all_sides r.sides) h ]

enter_site : MapSite → Heap → Bool × Heap
unfolding enter_room
enter_site (room r) h = enter_room r h
enter_site (wall none) h = (false, h)
enter_site (wall (some bombed)) h = (bombed, h)
enter_site (door d) h = (d.is_open, h)

-- `Enter` of the object at a place; `none` where there is no object.
unfoldable pub enter : ℕ → Heap → Option (Bool × Heap)
unfolding enter_site
enter p h = elim (get_elem? h p) [ none ↦ none | some s ↦ some (enter_site s h) ]

-- `SetSide` and `GetSide` of the room at a place.
changed_site : (Room → Room) → MapSite → MapSite
changed_site f (room r) = room (f r)
changed_site f s = s

unfoldable pub set_side : Direction → Option ℕ → ℕ → Heap → Heap
unfolding changed_site
set_side d side p [] = []
set_side d side zero (s ∷ h) =
    changed_site (λ r. record r { sides = with_side d side r.sides }) s ∷ h
set_side d side (suc p) (s ∷ h) = s ∷ set_side d side p h

-- The places of the rooms.
abbrev pub Maze : Type 0
Maze = List ℕ

abbrev pub add_room : ℕ → Maze → Maze
add_room p m = m ++ p ∷ []

abbrev number_at : Heap → ℕ → Option ℤ
number_at h p = elim (get_elem? h p) [ some (room r) ↦ some r.number | _ ↦ none ]

abbrev has_number : ℤ → Option ℤ → Bool
has_number n none = false
has_number n (some k) = equal_ℤ k n

unfoldable pub room_no : ℤ → Maze → Heap → Option ℕ
room_no n [] h = none
room_no n (p ∷ m) h = elim (has_number n (number_at h p)) [ true ↦ some p | false ↦ room_no n m h ]
