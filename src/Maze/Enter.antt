-- ===== src/Maze/Enter.antt =====
-- A room with a bomb opens its walls and doors when it is entered.
use personal_project.Common.{
  get_elem?-set, ℕ, ◌≡◌, ◌≢◌, refl, sym, ap, ◌∙◌, Bool, true, false, inl, inr, Bool-cases, Option,
  none, some, List, [], ◌∷◌, All, arith, ◌==◌, ==→eq, if◌then◌else◌, get_elem?, set,
}
use personal_project.Maze.{
  Room, MapSite, room, wall, door, Heap, all_sides, blown_site, blown, blow_up, enter_room,
  enter_site, enter,
}

-- A bombed wall or a door.
abbrev pub CanOpenSite : Option MapSite → Type 0
CanOpenSite (some (wall (some b))) = Unit
CanOpenSite (some (door d)) = Unit
CanOpenSite _ = ⊥

abbrev pub CanOpen : Heap → Option ℕ → Type 0
CanOpen h none = ⊥
CanOpen h (some p) = CanOpenSite (get_elem? h p)

-- Entering it succeeds and changes nothing.
abbrev pub IsOpen : Heap → Option ℕ → Type 0
IsOpen h none = ⊥
IsOpen h (some p) = enter p h ≡ some (true, h)

-- A site that is open.
abbrev IsOpenSite : Option MapSite → Type 0
IsOpenSite (some (wall (some b))) = b ≡ true
IsOpenSite (some (door d)) = d.is_open ≡ true
IsOpenSite _ = ⊥

open_site-enter :
    (h : Heap) (o : Option MapSite)
    → IsOpenSite o
    → (s : MapSite) × (o ≡ some s) × (enter_site s h ≡ (true, h))
unfolding enter_site
open_site-enter h none o = absurd o
open_site-enter h (some (room r)) o = absurd o
open_site-enter h (some (wall none)) o = absurd o
open_site-enter h (some (wall (some b))) o = (wall (some b), refl, ap (λ x. (x, h)) o)
open_site-enter h (some (door d)) o = (door d, refl, ap (λ x. (x, h)) o)

IsOpenSite-IsOpen : (h : Heap) (p : ℕ) → IsOpenSite (get_elem? h p) → IsOpen h (some p)
unfolding enter
IsOpenSite-IsOpen h p o =
    let (s, e, entered) = open_site-enter h (get_elem? h p) o in rw (enter, e) (ap some entered)

blown_site-opens :
    (o : Option MapSite)
    → CanOpenSite o
    → (s : MapSite) × (t : MapSite) × (o ≡ some s)
      × (blown_site s ≡ some t)
      × IsOpenSite (some t)
      × CanOpenSite (some t)
unfolding blown_site
blown_site-opens none c = absurd c
blown_site-opens (some (room r)) c = absurd c
blown_site-opens (some (wall none)) c = absurd c
blown_site-opens (some (wall (some b))) c = (wall (some b), wall (some true), refl, refl, refl, tt)
blown_site-opens (some (door d)) c =
    (door d, door (record d { is_open = true }), refl, refl, refl, tt)

module _ (h : Heap) (p : ℕ) (s t : MapSite) (e : get_elem? h p ≡ some s) where
  get_elem?-set_self : get_elem? (set h p t) p ≡ some t
  get_elem?-set_self = get_elem?-set h p p s t e ∙ ground arith

  get_elem?-set_other : (q : ℕ) → some p ≢ some q → get_elem? (set h p t) q ≡ get_elem? h q
  get_elem?-set_other q n = elim (Bool-cases (q == p)) [
    | inl same ↦ absurd (n (ap some (sym (==→eq q p same))))
    | inr apart ↦ get_elem?-set h p q s t e ∙ rw apart
  ]

-- What holds of the new site and of another one, holds at every place behind the change.
set-keeps :
    (P : Option MapSite → Type 0) (h : Heap) (p q : ℕ) (s t : MapSite)
    → get_elem? h p ≡ some s
    → P (some t)
    → P (get_elem? h q)
    → P (get_elem? (set h p t) q)
set-keeps P h p q s t e new old = rw (get_elem?-set h p q s t e) (choose (q == p))
  where
    choose : (b : Bool) → P (if b then some t else get_elem? h q)
    choose true = new
    choose false = old

CanOpen-set :
    (h : Heap) (p : ℕ) (s t : MapSite)
    → get_elem? h p ≡ some s
    → CanOpenSite (some t)
    → (ss : List (Option ℕ)) → All (CanOpen h) ss
    → All (CanOpen (set h p t)) ss
CanOpen-set h p s t e new [] c = tt
CanOpen-set h p s t e new (none ∷ ss) c = absurd c.0
CanOpen-set h p s t e new (some q ∷ ss) c =
    (set-keeps CanOpenSite h p q s t e new c.0, CanOpen-set h p s t e new ss c.1)

abbrev Opened : Heap → Option ℕ → Type 0
Opened h none = ⊥
Opened h (some p) = IsOpenSite (get_elem? h p)

-- What an explosion leaves.
abbrev Explodes : List (Option ℕ) → Heap → Type 0
Explodes ss h =
    (g : Heap) × (blow_up ss h ≡ (true, g))
    × All (Opened g) ss
    × ((q : ℕ) → IsOpenSite (get_elem? h q) → IsOpenSite (get_elem? g q))
    × ((q : ℕ) → All (λ s. s ≢ some q) ss → get_elem? g q ≡ get_elem? h q)

explodes : (ss : List (Option ℕ)) (h : Heap) → All (CanOpen h) ss → Explodes ss h
unfolding blow_up blown
explodes [] h c = (h, refl, tt, λ q o. o, λ q n. refl)
explodes (none ∷ ss) h c = absurd c.0
explodes (some p ∷ ss) h c =
    let (s, t, e, now, opened, can) = blown_site-opens (get_elem? h p) c.0 in
    let (g, run, all, keeps, same) = explodes ss (set h p t) (CanOpen-set h p s t e can ss c.1) in
    (
      g,
      rw (blow_up, blown, e, now) run,
      (keeps p (rw (get_elem?-set_self h p s t e) opened), all),
      λ q o. keeps q (set-keeps IsOpenSite h p q s t e opened o),
      λ q n. same q n.1 ∙ get_elem?-set_other h p s t e q n.0,
    )

opened-IsOpen : (h : Heap) (ss : List (Option ℕ)) → All (Opened h) ss → All (IsOpen h) ss
opened-IsOpen h [] o = tt
opened-IsOpen h (none ∷ ss) o = absurd o.0
opened-IsOpen h (some p ∷ ss) o = (IsOpenSite-IsOpen h p o.0, opened-IsOpen h ss o.1)

enter-blow_up :
    (h g : Heap) (p : ℕ) (r : Room) (b : Bool)
    → get_elem? h p ≡ some (room r)
    → r.has_bomb ≡ some b
    → blow_up (all_sides r.sides) h ≡ (true, g)
    → enter p h ≡ some (true, g)
unfolding enter enter_site enter_room
enter-blow_up h g p r b e bomb run = rw (enter, e, enter_site, bomb) (ap some run)

pub enter-opens :
    (h : Heap) (p : ℕ) (r : Room) (b : Bool)
    → get_elem? h p ≡ some (room r)
    → r.has_bomb ≡ some b
    → All (CanOpen h) (all_sides r.sides)
    → (g : Heap) × (enter p h ≡ some (true, g)) × All (IsOpen g) (all_sides r.sides)
enter-opens h p r b e bomb can =
    let (g, run, opened, keeps, same) = explodes (all_sides r.sides) h can in
    (g, enter-blow_up h g p r b e bomb run, opened-IsOpen g (all_sides r.sides) opened)

-- If each side of a room of the class RoomWithBomb is a bombed wall or a door, Enter returns true, whether
-- the bomb was removed or not, and leaves each side open; all other objects stay as they are.
pub enter-IsOpen :
    (h : Heap) (p q : ℕ) (r : Room) (b : Bool)
    → get_elem? h p ≡ some (room r)
    → r.has_bomb ≡ some b
    → All (CanOpen h) (all_sides r.sides)
    → All (λ s. s ≢ some q) (all_sides r.sides)
    → (g : Heap) × (enter p h ≡ some (true, g))
      × All (IsOpen g) (all_sides r.sides)
      × (get_elem? g q ≡ get_elem? h q)
enter-IsOpen h p q r b e bomb can apart =
    let (g, run, opened, keeps, same) = explodes (all_sides r.sides) h can in
    (
      g,
      enter-blow_up h g p r b e bomb run,
      opened-IsOpen g (all_sides r.sides) opened,
      same q apart,
    )
