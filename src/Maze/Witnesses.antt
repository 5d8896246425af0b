-- ===== src/Maze/Witnesses.antt =====
-- Mazes of the three files, and the theorems at them.
use personal_project.Common.{
  ℕ, arith, ◌≢◌, ◌≡◌, refl, true, false, Option, none, some, [], ◌∷◌, All, get_elem?,
}
use personal_project.Decimal.{pos}
use personal_project.Maze.{
  Room, room, wall, Heap, all_sides, new_room_with_bomb, remove_bomb, clone_room, enter,
  other_side_from,
}
use personal_project.Maze.Made.{
  Prototypes, maze_factory, maze_prototype_factory, prototype_door, create_maze,
}
use personal_project.Maze.Enter.{IsOpen, enter-IsOpen}
use personal_project.Maze.Create.{IsTwoRooms, create_maze-IsTwoRooms}

create_maze-IsTwoRooms_example :
    IsTwoRooms maze_factory (pos 33) (pos 34) (create_maze maze_factory [])
create_maze-IsTwoRooms_example = create_maze-IsTwoRooms maze_factory [] refl (λ n. refl)

-- A room without its bomb, all of whose sides are one bombed wall.
abbrev walled : Room
walled = record (remove_bomb (new_room_with_bomb (pos 1))) {
  sides = record { on_north = some 1; on_south = some 1; on_east = some 1; on_west = some 1 };
}

abbrev small : Heap
small = room walled ∷ wall (some false) ∷ wall none ∷ []

enter-IsOpen_example :
    (g : Heap) × (enter 0 small ≡ some (true, g))
    × All (IsOpen g) (all_sides walled.sides)
    × (get_elem? g 2 ≡ some (wall none))
enter-IsOpen_example =
    enter-IsOpen small 0 2 walled false refl refl (tt, (tt, (tt, (tt, tt)))) apart
  where
    other : ◌≢◌ {A = Option ℕ} (some 1) (some 2)
    other e = ground arith

    apart : All (λ s. s ≢ some 2) (all_sides walled.sides)
    apart = (other, (other, (other, (other, tt))))

abbrev prototypes : Prototypes
prototypes = record {
  maze = [];
  wall = none;
  room = walled;
  door = record { is_open = false; room1 = none; room2 = none };
}

-- The door of a maze by prototypes is open, though the prototype and the hidden function make closed ones.
door_open :
    (maze_prototype_factory prototypes).door_made 0 1
    ≡ record { is_open = true; room1 = some 0; room2 = some 1 }
door_open = refl

door_hidden :
    prototype_door prototypes 0 1 ≡ record { is_open = false; room1 = some 0; room2 = some 1 }
door_hidden = refl

-- A copy of a room with a bomb has no sides.
clone_loses : (clone_room walled).sides.on_north ≡ none
unfolding clone_room
clone_loses = refl

other_side : other_side_from (some 0) (prototype_door prototypes 0 1) ≡ some 1
unfolding other_side_from
other_side = refl
