-- ===== src/Observer.antt =====
-- observer_pattern.cpp: a timer and the clocks that watch it, while any of them come and go.
pub mod Alive
pub mod Runs
mod Witnesses
use personal_project.Common.{
  ℕ, zero, suc, Bool, true, false, ◌&&◌, Option, none, some, List, [], ◌∷◌, ◌++◌, ◌==◌,
  if◌then◌else◌, length, get_elem?, set,
}

pub data Kind : Type 0 where
  digital analog : Kind

-- An observer; `has_subject` says whether `subject_` points to the timer or is null.
pub record Clock : Type 0 where
  pub kind : Kind
  pub alive : Bool
  pub has_subject : Bool

-- Hour, minute and second.
pub record Time : Type 0 where
  pub hour : ℕ
  pub minute : ℕ
  pub second : ℕ

-- What `Update` prints: that there is a subject, perhaps with the time, or that there is none any more.
pub data Line : Type 0 where
  updated : Kind → Option Time → Line
  destroyed : Kind → Line

-- The objects: the timer, if it is there, with its time and its observers, and all clocks that were made.
pub record World : Type 0 where
  pub timer : Bool
  pub tm : Option Time
  pub observers : List ℕ
  pub clocks : List Clock
  pub output : List Line

-- `GetHour`, `GetMinute` and `GetSecond`
abbrev pub time_of : Option Time → Time
time_of none = record { hour = 0; minute = 0; second = 0 }
time_of (some t) = t

unfoldable pub attach : ℕ → World → World
attach k w = record w { observers = w.observers ++ k ∷ [] }

erase_first : ℕ → List ℕ → List ℕ
erase_first k [] = []
erase_first k (j ∷ js) = elim (k == j) [ true ↦ js | false ↦ j ∷ erase_first k js ]

unfoldable pub detach : ℕ → World → World
unfolding erase_first
detach k w = record w { observers = erase_first k w.observers }

-- `subj == subject_`, where the first is the timer or null.
abbrev pub same_subject : Bool → Bool → Bool
same_subject true s = s
same_subject false true = false
same_subject false false = true

abbrev pub print : Line → World → World
print l w = record w { output = w.output ++ l ∷ [] }

abbrev pub seen_time : Clock → World → Option Time
seen_time c w = if c.has_subject then some (time_of w.tm) else none

update_clock : Bool → ℕ → Clock → World → World
update_clock subj k c w =
    if same_subject subj c.has_subject
    then print (updated c.kind (seen_time c w)) w
    else print (destroyed c.kind)
        (record w { clocks = set w.clocks k (record c { has_subject = false }) })

-- `Update` of the clock at a place; `none` if it has been destroyed or was never made.
unfoldable pub update : Bool → ℕ → World → Option World
unfolding update_clock
update subj k w = elim (get_elem? w.clocks k) [
  | none ↦ none
  | some c ↦ if c.alive then some (update_clock subj k c w) else none
]

-- The loop of `Notify` over the observers.
unfoldable pub notify_all : Bool → List ℕ → World → Option World
notify_all subj [] w = some w
notify_all subj (k ∷ ks) w = elim (update subj k w) [ none ↦ none | some v ↦ notify_all subj ks v ]

unfoldable pub notify : Bool → World → Option World
notify end w = notify_all (if end then false else true) w.observers w

-- `new DigitalClock(timer)` and `new AnalogClock(timer)`; `none` if the timer has been destroyed.
unfoldable pub new_clock : Kind → World → Option World
new_clock kind w =
    if w.timer
    then some (
        attach (length w.clocks) (record w {
          clocks = w.clocks ++ record { kind = kind; alive = true; has_subject = true } ∷ [];
        }))
    else none

abbrev pub dead : Clock → Clock
dead c = record c { alive = false }

-- The destructor of a clock; `none` if it would call `Detach` of a timer that has been destroyed.
delete_live : ℕ → Clock → World → Option World
delete_live k c w =
    if c.has_subject
    then (if w.timer then some (detach k (record w { clocks = set w.clocks k (dead c) })) else none)
    else some (record w { clocks = set w.clocks k (dead c) })

unfoldable pub delete_clock : ℕ → World → Option World
unfolding delete_live
delete_clock k w = elim (get_elem? w.clocks k) [
  | none ↦ none
  | some c ↦ if c.alive then delete_live k c w else none
]

-- `Tick` at a time that `localtime` gives.
unfoldable pub tick : Time → World → Option World
tick now w = if w.timer then notify false (record w { tm = some now }) else none

ended : Option World → Option World
ended none = none
ended (some w) = some (record w { timer = false; observers = [] })

-- The destructor of the timer.
unfoldable pub delete_timer : World → Option World
unfolding ended
delete_timer w = if w.timer then ended (notify true w) else none

-- What the client of the classes does.
pub data Command : Type 0 where
  create : Kind → Command
  delete : ℕ → Command
  tick_at : Time → Command
  end_timer : Command

unfoldable pub perform : Command → World → Option World
perform (create kind) w = new_clock kind w
perform (delete k) w = delete_clock k w
perform (tick_at now) w = tick now w
perform end_timer w = delete_timer w

abbrev pub is_alive : Option Clock → Bool
is_alive none = false
is_alive (some c) = c.alive

-- The client itself uses only what is there: the timer while it is, and a clock that it has not destroyed.
unfoldable pub is_allowed : Command → World → Bool
is_allowed (delete k) w = is_alive (get_elem? w.clocks k)
is_allowed command w = w.timer

-- A run of commands that are allowed, the others being left out; `none` if a destroyed object is used.
unfoldable pub run : List Command → World → Option World
run [] w = some w
run (c ∷ cs) w = elim (is_allowed c w) [
  | false ↦ run cs w
  | true ↦ elim (perform c w) [ none ↦ none | some v ↦ run cs v ]
]

-- `new ClockTimer()`
abbrev pub new_timer : World
new_timer = record { timer = true; tm = none; observers = []; clocks = []; output = [] }
