-- ===== src/Maze/Create.antt =====
-- The maze that is made: two rooms that share a door, and walls else.
use personal_project.Common.{
  All, if◌then◌else◌, ◌==◌, ℕ, ◌+◌, ◌≡◌, refl, sym, ap, ◌∙◌, Bool, true, false, Option, none, some,
  [], ◌∷◌, ◌++◌, append-nil, append_assoc, length, length-append, get_elem?,
}
use native.Mathlib.Nat
use personal_project.Decimal.{ℤ, pos, negsuc}
use personal_project.Integers.{equal_ℤ}
use personal_project.Maze.{
  Direction, Sides, MapSite, room, wall, door, Heap, Maze, set_side, changed_site, room_no, enter,
  all_sides,
}
use personal_project.Maze.Enter.{CanOpen, IsOpen, enter-opens}
use personal_project.Maze.Made.{Factory, allocate, create_maze, create_game}

module _ (h : Heap) where
  -- Objects behind those of a heap.
  allocate-append :
      (s : MapSite) (xs : Heap) → allocate s (h ++ xs) ≡ (length h + length xs, h ++ (xs ++ s ∷ []))
  unfolding allocate
  allocate-append s xs = rw (length-append h xs, append_assoc h xs (s ∷ []))

set_side-append :
    (d : Direction) (q : Option ℕ) (i : ℕ) (h xs : Heap)
    → set_side d q (length h + i) (h ++ xs) ≡ h ++ set_side d q i xs
unfolding set_side
set_side-append d q i [] xs = rw (Nat.zero-add i)
set_side-append d q i (s ∷ h) xs =
    rw (Nat.suc-add (length h) i) (ap (λ r. s ∷ r) (set_side-append d q i h xs))

-- The sides of the two rooms, by the places of the rooms, of the door and of the walls.
abbrev pub sides1 : ℕ → Sides
sides1 n = record {
  on_north = some (n + 3);
  on_south = some (n + 4);
  on_east = some (n + 2);
  on_west = some (n + 5);
}

abbrev pub sides2 : ℕ → Sides
sides2 n = record {
  on_north = some (n + 6);
  on_south = some (n + 8);
  on_east = some (n + 7);
  on_west = some (n + 2);
}

abbrev pub made : Factory → ℤ → ℤ → ℕ → Heap
made f a b n =
    room (record (f.room_made a) { sides = sides1 n })
    ∷ room (record (f.room_made b) { sides = sides2 n })
    ∷ door (f.door_made n (n + 1))
    ∷ wall f.wall_made
    ∷ wall f.wall_made
    ∷ wall f.wall_made
    ∷ wall f.wall_made
    ∷ wall f.wall_made
    ∷ wall f.wall_made
    ∷ []

create_maze-made :
    (f : Factory) (h : Heap)
    → create_maze f (h ++ [])
      ≡ (f.maze ++ length h ∷ (length h + 1) ∷ [], h ++ made f (pos 33) (pos 34) (length h))
unfolding create_maze set_side changed_site
create_maze-made f h = simp (allocate-append h, set_side-append) (rw (Nat.add-zero, append_assoc))

create_game-made :
    (f : Factory) (h : Heap)
    → create_game f (h ++ [])
      ≡ (f.maze ++ length h ∷ (length h + 1) ∷ [], h ++ made f (pos 1) (pos 2) (length h))
unfolding create_game set_side changed_site
create_game-made f h = simp (allocate-append h, set_side-append) (rw (Nat.add-zero, append_assoc))

-- The numbers of the game's rooms, in place of 33 and 34.
abbrev pub game_number : ℤ → ℤ
game_number (pos n) = if n == 33 then pos 1 else pos 2
game_number (negsuc n) = pos 2

-- CreateMaze of FactoryMethod.cpp makes the maze that CreateMaze of AbstractFactory.cpp makes, with the rooms numbered 1 and
-- 2, for any functions that make the parts.
create_game-create_maze :
    (f : Factory) (h : Heap)
    → create_game f h ≡ create_maze (record f { room_made = λ n. f.room_made (game_number n) }) h
create_game-create_maze f h = rw (sym (append-nil h)) (
    create_game-made f h
    ∙ sym (create_maze-made (record f { room_made = λ n. f.room_made (game_number n) }) h))

get_elem?-append : (h xs : Heap) (i : ℕ) → get_elem? (h ++ xs) (length h + i) ≡ get_elem? xs i
get_elem?-append [] xs i = rw (Nat.zero-add i)
get_elem?-append (s ∷ h) xs i = rw (Nat.suc-add (length h) i) (get_elem?-append h xs i)

get_elem?-append_first : (h xs : Heap) → get_elem? (h ++ xs) (length h) ≡ get_elem? xs 0
get_elem?-append_first h xs =
    ap (get_elem? (h ++ xs)) (sym (Nat.add-zero (length h))) ∙ get_elem?-append h xs 0

abbrev pub IsWall : Factory → Heap → Option ℕ → Type 0
IsWall f h none = ⊥
IsWall f h (some p) = get_elem? h p ≡ some (wall f.wall_made)

-- Two rooms are found by their numbers; the east side of the first and the west side of the second are
-- one door between them, and the other sides are walls.
abbrev pub IsTwoRooms : Factory → ℤ → ℤ → Maze × Heap → Type 0
IsTwoRooms f a b (m, h) =
    (p : ℕ) × (q : ℕ) × (between : ℕ) × (s : Sides) × (t : Sides) × (room_no a m h ≡ some p)
    × (room_no b m h ≡ some q)
    × (get_elem? h p ≡ some (room (record (f.room_made a) { sides = s })))
    × (get_elem? h q ≡ some (room (record (f.room_made b) { sides = t })))
    × (get_elem? h between ≡ some (door (f.door_made p q)))
    × (s.on_east ≡ some between)
    × (t.on_west ≡ some between)
    × All (IsWall f h)
        (s.on_north ∷ s.on_south ∷ s.on_west ∷ t.on_north ∷ t.on_south ∷ t.on_east ∷ [])

made-IsTwoRooms :
    (f : Factory) (a b : ℤ) (h : Heap)
    → (f.room_made a).number ≡ a
    → (f.room_made b).number ≡ b
    → equal_ℤ a b ≡ false
    → equal_ℤ a a ≡ true
    → equal_ℤ b b ≡ true
    → IsTwoRooms f a b (length h ∷ (length h + 1) ∷ [], h ++ made f a b (length h))
unfolding room_no
made-IsTwoRooms f a b h ha hb apart aa bb = (
  length h,
  length h + 1,
  length h + 2,
  sides1 (length h),
  sides2 (length h),
  rw (room_no, first, ha, aa),
  rw (room_no, first, ha, apart, room_no, at 1, hb, bb),
  first,
  at 1,
  at 2,
  refl,
  refl,
  (at 3, (at 4, (at 5, (at 6, (at 8, (at 7, tt)))))),
)
  where
    first :
        get_elem? (h ++ made f a b (length h)) (length h)
        ≡ some (room (record (f.room_made a) { sides = sides1 (length h) }))
    first = get_elem?-append_first h (made f a b (length h))

    at :
        (i : ℕ)
        → get_elem? (h ++ made f a b (length h)) (length h + i)
          ≡ get_elem? (made f a b (length h)) i
    at i = get_elem?-append h (made f a b (length h)) i

IsWall-CanOpen :
    (f : Factory) (h : Heap) (w : Bool)
    → f.wall_made ≡ some w
    → (o : Option ℕ) → IsWall f h o
    → CanOpen h o
IsWall-CanOpen f h w bombed none e = absurd e
IsWall-CanOpen f h w bombed (some p) e = rw (e, bombed) tt

-- A factory whose rooms have the numbers that they are made with, and whose maze starts empty.
module _ (f : Factory) (h : Heap) (empty : f.maze ≡ [])
    (numbered : (n : ℤ) → (f.room_made n).number ≡ n) where
  -- CreateMaze gives a maze in which RoomNo finds the rooms 33 and 34, with one door between them, on the east of the
  -- first and the west of the second, and walls on all other sides.
  pub create_maze-IsTwoRooms : IsTwoRooms f (pos 33) (pos 34) (create_maze f h)
  create_maze-IsTwoRooms =
      rw (sym (append-nil h), create_maze-made f h, empty)
        (made-IsTwoRooms f (pos 33) (pos 34) h (numbered (pos 33)) (numbered (pos 34)) refl refl
          refl)

  -- The room 33 of a maze of rooms with bombs and of bombed walls: Enter returns true, and then all four sides can be entered.
  enter-create_maze :
      (b w : Bool)
      → (f.room_made (pos 33)).has_bomb ≡ some b
      → f.wall_made ≡ some w
      → (p : ℕ) × (s : Sides) × (g : Heap) × (room_no
            (pos 33)
            (create_maze f h).0
            (create_maze f h).1
          ≡ some p)
        × (get_elem? (create_maze f h).1 p
            ≡ some (room (record (f.room_made (pos 33)) { sides = s })))
        × (enter p (create_maze f h).1 ≡ some (true, g))
        × All (IsOpen g) (all_sides s)
  enter-create_maze b w bomb bombed =
      let (p, q, between, s, t, found, other, at_p, at_q, at_door, on_east, on_west, walls) =
        create_maze-IsTwoRooms in
      let can_wall = λ (o : Option ℕ) (e : IsWall f (create_maze f h).1 o).
        IsWall-CanOpen f (create_maze f h).1 w bombed o e in
      let can_door : CanOpen (create_maze f h).1 s.on_east = rw (on_east, at_door) tt in
      let (g, entered, opened) =
        enter-opens (create_maze f h).1 p (record (f.room_made (pos 33)) { sides = s }) b at_p bomb
          (
            can_wall s.on_north walls.0,
            (can_wall s.on_south walls.1.0, (can_door, (can_wall s.on_west walls.1.1.0, tt))),
          ) in
      (p, s, g, found, at_p, entered, opened)
