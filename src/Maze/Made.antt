-- ===== src/Maze/Made.antt =====
-- The factories, and the functions that make a maze of two rooms.
use personal_project.Common.{ℕ, Bool, true, false, Option, none, some, [], ◌∷◌, ◌++◌, length}
use personal_project.Decimal.{ℤ, pos}
use personal_project.Maze.{
  Direction, north, south, east, west, Room, Door, MapSite, room, wall, door, Heap, Maze, new_room,
  new_room_with_bomb, new_door, clone_room, initialize_room, initialize_door, set_side, add_room,
}

-- What the virtual functions of a factory make: the maze, a wall, a room with a number, and a door
-- between two rooms.
pub record Factory : Type 0 where
  pub maze : Maze
  pub wall_made : Option Bool
  pub room_made : ℤ → Room
  pub door_made : ℕ → ℕ → Door

-- `MazeFactory`
abbrev pub maze_factory : Factory
maze_factory = record {
  maze = [];
  wall_made = none;
  room_made = new_room;
  door_made = λ r1 r2. new_door (some r1) (some r2) true;
}

-- `BombedMazeFactory`
abbrev pub bombed_maze_factory : Factory
bombed_maze_factory = record maze_factory { wall_made = some false; room_made = new_room_with_bomb }

-- `MazePrototypeFactory` with its prototypes.
pub record Prototypes : Type 0 where
  pub maze : Maze
  pub wall : Option Bool
  pub room : Room
  pub door : Door

-- Its own `MakeDoor` takes its arguments by value, and so hides the virtual function of `MazeFactory` and
-- does not override it: where a `MazeFactory&` is called, the door is made by `MazeFactory::MakeDoor`.
abbrev pub maze_prototype_factory : Prototypes → Factory
maze_prototype_factory p = record {
  maze = p.maze;
  wall_made = p.wall;
  room_made = λ n. initialize_room n (clone_room p.room);
  door_made = maze_factory.door_made;
}

-- The function that is hidden.
abbrev pub prototype_door : Prototypes → ℕ → ℕ → Door
prototype_door p r1 r2 = initialize_door (some r1) (some r2) false p.door

-- `StandardMazeGame` and `BombedMazeGame`, which override the functions in the game itself.
abbrev pub standard_maze_game : Factory
standard_maze_game = record {
  maze = [];
  wall_made = none;
  room_made = new_room;
  door_made = λ r1 r2. new_door (some r1) (some r2) true;
}

abbrev pub bombed_maze_game : Factory
bombed_maze_game = record standard_maze_game {
  wall_made = some false;
  room_made = new_room_with_bomb;
}

-- Code that allocates and changes objects.
abbrev Build : Type 0 → Type 0
Build A = Heap → A × Heap

infixl 5 ◌>>=◌ ◌>>◌
abbrev ◌>>=◌ : {A B : Type 0} → Build A → (A → Build B) → Build B
◌>>=◌ m f h = f (m h).0 (m h).1

abbrev ◌>>◌ : {B : Type 0} → Build (Unit {0}) → Build B → Build B
m >> k = m >>= λ _. k

abbrev pure : {A : Type 0} → A → Build A
pure a h = (a, h)

-- `new`
unfoldable pub allocate : MapSite → Heap → ℕ × Heap
allocate s h = (length h, h ++ s ∷ [])

abbrev put_side : Direction → ℕ → ℕ → Build (Unit {0})
put_side d p r h = (tt, set_side d (some p) r h)

-- `SetSide` with a new wall.
put_wall : Factory → Direction → ℕ → Build (Unit {0})
put_wall f d r = do w ← allocate (wall f.wall_made); put_side d w r

-- `CreateMaze` of Prototype.cpp and AbstractFactory.cpp.
unfoldable pub create_maze : Factory → Heap → Maze × Heap
unfolding put_wall
create_maze f = do
  room1 ← allocate (room (f.room_made (pos 33)))
  room2 ← allocate (room (f.room_made (pos 34)))
  between ← allocate (door (f.door_made room1 room2))
  let maze = add_room room2 (add_room room1 f.maze)
  put_wall f north room1
  put_side east between room1
  put_wall f south room1
  put_wall f west room1
  put_wall f north room2
  put_wall f east room2
  put_wall f south room2
  put_side west between room2
  pure maze

-- `StandardMazeGame::CreateMaze` of FactoryMethod.cpp.
unfoldable pub create_game : Factory → Heap → Maze × Heap
unfolding put_wall
create_game f = do
  room1 ← allocate (room (f.room_made (pos 1)))
  room2 ← allocate (room (f.room_made (pos 2)))
  between ← allocate (door (f.door_made room1 room2))
  put_wall f north room1
  put_side east between room1
  put_wall f south room1
  put_wall f west room1
  put_wall f north room2
  put_wall f east room2
  put_wall f south room2
  put_side west between room2
  pure (add_room room2 (add_room room1 f.maze))
