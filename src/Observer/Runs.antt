-- ===== src/Observer/Runs.antt =====
-- No destroyed object is used, whatever is done in whatever order.
use personal_project.Common.{
  ℕ, zero, suc, ◌+◌, ◌≡◌, refl, sym, ap, ◌∙◌, inl, inr, Bool, true, false, Bool-cases, Option, none,
  some, List, [], ◌∷◌, ◌++◌, arith, eq→==, ne→==, length, get_elem?, set, if◌then◌else◌, All,
  All-append,
}
use mathlib.Core.Path.{subst}
use mathlib.Core.Option.{some-injective}
use native.Mathlib.Nat
use personal_project.Observer.{
  notify_all, notify, Kind, Clock, World, attach, erase_first, detach, new_clock, dead,
  delete_clock, ended, Command, create, delete, tick_at, end_timer, perform, is_alive, is_allowed,
  run, new_timer, Time, tick, updated,
}
use personal_project.Observer.Alive.{
  keep, live, lines, Joined, IsWatched, tick-lines, delete_timer-lines, all_lost-Joined,
}

live-append :
    (cs : List Clock) (i : ℕ) (c : Clock)
    → c.alive ≡ true
    → live i (cs ++ c ∷ []) ≡ live i cs ++ (i + length cs) ∷ []
live-append [] i c e = rw (e, Nat.add-zero i)
live-append (d ∷ cs) i c e = elim (Bool-cases d.alive) [
  | inl alive ↦ rw alive (
      ap (λ l. i ∷ l)
        (live-append cs (suc i) c e ∙ ap (λ n. live (suc i) cs ++ n ∷ []) (omega arith)))
  | inr gone ↦
      rw gone (live-append cs (suc i) c e ∙ ap (λ n. live (suc i) cs ++ n ∷ []) (omega arith))
]

-- A clock that is destroyed is taken out of the observers.
erase_first-live :
    (cs : List Clock) (i k : ℕ) (c : Clock)
    → get_elem? cs k ≡ some c
    → c.alive ≡ true
    → erase_first (i + k) (live i cs) ≡ live i (set cs k (dead c))
unfolding erase_first
erase_first-live [] i k c e h = absurd (cc e)
erase_first-live (d ∷ cs) i zero c e h =
    ap (λ b. erase_first (i + zero) (keep b i (live (suc i) cs)))
      (ap (λ (o : Option Clock). is_alive o) e ∙ h)
    ∙ rw (erase_first, eq→== (i + zero) i (omega arith))
erase_first-live (d ∷ cs) i (suc k) c e h = elim (Bool-cases d.alive) [
  | inl alive ↦
      rw (alive, erase_first, ne→== (i + suc k) i (omega arith))
        (ap (λ l. i ∷ l) (later (erase_first-live cs (suc i) k c e h)))
  | inr gone ↦ rw gone (later (erase_first-live cs (suc i) k c e h))
]
  where
    later :
        erase_first (suc i + k) (live (suc i) cs) ≡ live (suc i) (set cs k (dead c))
        → erase_first (i + suc k) (live (suc i) cs) ≡ live (suc i) (set cs k (dead c))
    later rest = ap (λ n. erase_first n (live (suc i) cs)) (omega arith) ∙ rest

All-get :
    (P : Clock → Type 0) (cs : List Clock) (k : ℕ) (c : Clock)
    → All P cs
    → get_elem? cs k ≡ some c
    → P c
All-get P [] k c h e = absurd (cc e)
All-get P (d ∷ cs) zero c h e = subst P (some-injective _ _ e) h.0
All-get P (d ∷ cs) (suc k) c h e = All-get P cs k c h.1 e

All-set :
    (P : Clock → Type 0) (cs : List Clock) (k : ℕ) (c : Clock) → All P cs → P c → All P (set cs k c)
All-set P [] k c h p = tt
All-set P (d ∷ cs) zero c h p = (p, h.1)
All-set P (d ∷ cs) (suc k) c h p = (h.0, All-set P cs k c h.1 p)

dead-Joined : (b : Bool) (c : Clock) → Joined b (dead c)
dead-Joined b c e = absurd (cc e)

-- What is done leaves the timer and its observers in order, and meets no destroyed object.
abbrev Fine : Option World → Type 0
Fine o = (v : World) × (o ≡ some v) × IsWatched v

create-Fine : (kind : Kind) (w : World) → IsWatched w → w.timer ≡ true → Fine (new_clock kind w)
unfolding new_clock attach
create-Fine kind w (inl (there, watching, joined)) h = (
  attach (length w.clocks) (record w { clocks = w.clocks ++ c ∷ [] }),
  rw there,
  inl (
    there,
    ap (λ l. l ++ length w.clocks ∷ []) watching
        ∙ sym (live-append w.clocks 0 c refl ∙ ap (λ n. live 0 w.clocks ++ n ∷ []) (omega arith)),
    All-append (Joined true) w.clocks (c ∷ []) joined ((λ e. refl), tt),
  ),
)
  where
    c : Clock
    c = record { kind = kind; alive = true; has_subject = true }
create-Fine kind w (inr (gone, left)) h = absurd (cc (gone, h))

delete-Fine :
    (k : ℕ) (c : Clock) (w : World)
    → get_elem? w.clocks k ≡ some c
    → c.alive ≡ true
    → IsWatched w
    → Fine (delete_clock k w)
unfolding delete_clock detach
delete-Fine k c w e alive (inl (there, watching, joined)) = (
  detach k (record w { clocks = set w.clocks k (dead c) }),
  ground (arith, e, All-get (Joined true) w.clocks k c joined e alive),
  inl (
    there,
    ap (erase_first k) watching
        ∙ ap (λ n. erase_first n (live 0 w.clocks)) (omega arith)
        ∙ erase_first-live w.clocks 0 k c e alive,
    All-set (Joined true) w.clocks k (dead c) joined (dead-Joined true c),
  ),
)
delete-Fine k c w e alive (inr (gone, left)) = (
  record w { clocks = set w.clocks k (dead c) },
  ground (arith, e, All-get (Joined false) w.clocks k c left e alive),
  inr (gone, All-set (Joined false) w.clocks k (dead c) left (dead-Joined false c)),
)

alive-some : (o : Option Clock) → is_alive o ≡ true → (c : Clock) × (o ≡ some c) × (c.alive ≡ true)
alive-some none h = absurd (cc h)
alive-some (some c) h = (c, refl, h)

perform-Fine :
    (command : Command) (w : World)
    → IsWatched w
    → is_allowed command w ≡ true
    → Fine (perform command w)
unfolding perform is_allowed
perform-Fine (create kind) w ok h = create-Fine kind w ok h
perform-Fine (delete k) w ok h =
    let (c, e, alive) = alive-some (get_elem? w.clocks k) h in delete-Fine k c w e alive ok
perform-Fine (tick_at now) w (inl (there, watching, joined)) h =
    (_, tick-lines w there watching joined now, inl (there, watching, joined))
perform-Fine (tick_at now) w (inr (gone, left)) h = absurd (cc (gone, h))
perform-Fine end_timer w (inl (there, watching, joined)) h =
    (_, delete_timer-lines w there watching joined, inr (refl, all_lost-Joined w.clocks))
perform-Fine end_timer w (inr (gone, left)) h = absurd (cc (gone, h))

run-Fine : (commands : List Command) (w : World) → IsWatched w → Fine (run commands w)
unfolding run
run-Fine [] w ok = (w, refl, ok)
run-Fine (c ∷ cs) w ok = elim (Bool-cases (is_allowed c w)) [
  | inl e ↦
      let (v, performed, fine) = perform-Fine c w ok e in
      let (u, ended, final) = run-Fine cs v fine in (u, rw (run, e, performed) ended, final)
  | inr e ↦ let (u, ended, final) = run-Fine cs w ok in (u, rw (run, e) ended, final)
]

run-IsWatched :
    (commands : List Command) → (w : World) × (run commands new_timer ≡ some w) × IsWatched w
run-IsWatched commands = run-Fine commands new_timer (inl (refl, refl, tt))

tick-watched :
    (now : Time) (w : World)
    → IsWatched w
    → tick now w ≡ (
        if w.timer
        then some (record w {
          tm = some now;
          output = w.output ++ lines (λ k. updated k (some now)) w.clocks;
        })
        else none)
unfolding tick notify
tick-watched now w (inl (there, watching, joined)) =
    let v : World = record w {
      tm = some now;
      output = w.output ++ lines (λ k. updated k (some now)) w.clocks;
    } in
    tick-lines w there watching joined now ∙ ap (λ b. if b then some v else none) (sym there)
tick-watched now w (inr (gone, left)) =
    let v : World = record w {
      tm = some now;
      output = w.output ++ lines (λ k. updated k (some now)) w.clocks;
    } in
    ap (λ b. if b then notify_all true w.observers (record w { tm = some now }) else none) gone
    ∙ ap (λ b. if b then some v else none) (sym gone)

-- Whatever a client does with a new timer, as long as it uses the timer only while it is there and
-- destroys no clock twice, in any order: no destroyed timer or clock is used, and in the end the
-- observers are the clocks that have not been destroyed, in the order in which they were made, each of
-- which has its subject, or none of them has after the timer has been destroyed. If the timer is there
-- its next Tick ends, each of the clocks that have not been destroyed prints the new time, once and in
-- that order, and nothing else changes but the time; if it is not, that Tick uses a destroyed object.
pub run-tick :
    (commands : List Command) (now : Time)
    → (w : World) × (run commands new_timer ≡ some w)
      × IsWatched w
      × (tick now w ≡ (
          if w.timer
          then some (record w {
            tm = some now;
            output = w.output ++ lines (λ k. updated k (some now)) w.clocks;
          })
          else none))
run-tick commands now =
    let (w, runs, watched) = run-IsWatched commands in
    (w, runs, watched, tick-watched now w watched)
