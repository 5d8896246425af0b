-- ===== src/Observer/Alive.antt =====
-- What is printed when the timer ticks and when it is destroyed.
use personal_project.Common.{
  ℕ, zero, suc, ◌≡◌, refl, sym, ap, ap₂, ◌∙◌, ◌⊎◌, inl, inr, Bool, true, false, Bool-cases, none,
  some, List, [], ◌∷◌, ◌++◌, append-nil, append_assoc, arith, if◌then◌else◌, length, get_elem?, set,
  All, length-append, set-append_length,
}
use personal_project.Observer.{
  Kind, Clock, Time, Line, updated, destroyed, World, time_of, print, update, notify_all, notify,
  tick, ended, delete_timer,
}

abbrev pub keep : {A : Type 0} → Bool → A → List A → List A
keep true a xs = a ∷ xs
keep false a xs = xs

-- The places of the clocks that have not been destroyed.
abbrev pub live : ℕ → List Clock → List ℕ
live i [] = []
live i (c ∷ cs) = keep c.alive i (live (suc i) cs)

-- A line for each clock that has not been destroyed.
abbrev pub lines : (Kind → Line) → List Clock → List Line
lines f [] = []
lines f (c ∷ cs) = keep c.alive (f c.kind) (lines f cs)

-- A clock without a subject, if it has not been destroyed.
abbrev pub lost : Clock → Clock
lost c = elim c.alive [ true ↦ record c { has_subject = false } | false ↦ c ]

abbrev pub all_lost : List Clock → List Clock
all_lost [] = []
all_lost (c ∷ cs) = lost c ∷ all_lost cs

-- Whether a clock that has not been destroyed has its subject.
abbrev pub Joined : Bool → Clock → Type 0
Joined b c = c.alive ≡ true → c.has_subject ≡ b

get_elem?-middle :
    (pre : List Clock) (c : Clock) (cs : List Clock) (k : ℕ)
    → k ≡ length pre
    → get_elem? (pre ++ c ∷ cs) k ≡ some c
get_elem?-middle [] c cs zero h = refl
get_elem?-middle [] c cs (suc k) h = absurd (omega arith)
get_elem?-middle (d ∷ pre) c cs zero h = absurd (omega arith)
get_elem?-middle (d ∷ pre) c cs (suc k) h = get_elem?-middle pre c cs k (omega arith)

lost-gone : (c : Clock) → c.alive ≡ false → lost c ≡ c
lost-gone c gone = ap (λ b. elim b [ true ↦ record c { has_subject = false } | false ↦ c ]) gone

update-joined :
    (k : ℕ) (c : Clock) (w : World)
    → get_elem? w.clocks k ≡ some c
    → c.alive ≡ true
    → c.has_subject ≡ true
    → update true k w ≡ some (print (updated c.kind (some (time_of w.tm))) w)
unfolding update
update-joined k c w e alive joined = ground (arith, e)

update-lost :
    (k : ℕ) (c : Clock) (w : World)
    → get_elem? w.clocks k ≡ some c
    → c.alive ≡ true
    → c.has_subject ≡ true
    → update false k w
      ≡ some (print (destroyed c.kind) (record w { clocks = set w.clocks k (lost c) }))
unfolding update
update-lost k c w e alive joined = ground (arith, e)

notify_all-next :
    (subj : Bool) (k : ℕ) (ks : List ℕ) (w v : World)
    → update subj k w ≡ some v
    → notify_all subj (k ∷ ks) w ≡ notify_all subj ks v
unfolding notify_all
notify_all-next subj k ks w v e = rw (notify_all, e)

pub notify_all-lines :
    (pre cs : List Clock) (i : ℕ) (w : World)
    → i ≡ length pre
    → w.clocks ≡ pre ++ cs
    → All (Joined true) cs
    → notify_all true (live i cs) w
      ≡ some (record w { output = w.output ++ lines (λ k. updated k (some (time_of w.tm))) cs })
unfolding notify_all
notify_all-lines pre [] i w hi e h = rw append-nil
notify_all-lines pre (c ∷ cs) i w hi e h = elim (Bool-cases c.alive) [
  | inl alive ↦
      rw
        (
          alive,
          notify_all,
          update-joined i c w (ap (λ l. get_elem? l i) e ∙ get_elem?-middle pre c cs i hi) alive
              (h.0 alive),
        )
        (notify_all-lines (pre ++ c ∷ []) cs (suc i)
            (print (updated c.kind (some (time_of w.tm))) w)
            (omega (arith, length-append pre (c ∷ []))) (e ∙ sym (append_assoc pre (c ∷ []) cs)) h.1
          ∙ rw (append_assoc))
  | inr gone ↦ rw gone (
      notify_all-lines (pre ++ c ∷ []) cs (suc i) w (omega (arith, length-append pre (c ∷ [])))
        (e ∙ sym (append_assoc pre (c ∷ []) cs)) h.1)
]

pub notify_all-lost :
    (pre cs : List Clock) (i : ℕ) (w : World)
    → i ≡ length pre
    → w.clocks ≡ pre ++ cs
    → All (Joined true) cs
    → notify_all false (live i cs) w
      ≡ some (record w { clocks = pre ++ all_lost cs; output = w.output ++ lines destroyed cs })
unfolding notify_all
notify_all-lost pre [] i w hi e h = rw (append-nil w.output, ← e)
notify_all-lost pre (c ∷ cs) i w hi e h = elim (Bool-cases c.alive) [
  | inl alive ↦
      ap (λ b. notify_all false (keep b i (live (suc i) cs)) w) alive
      ∙ notify_all-next false i (live (suc i) cs) w
          (print (destroyed c.kind) (record w { clocks = set w.clocks i (lost c) }))
          (update-lost i c w (ap (λ l. get_elem? l i) e ∙ get_elem?-middle pre c cs i hi) alive
            (h.0 alive))
      ∙ notify_all-lost (pre ++ lost c ∷ []) cs (suc i)
          (print (destroyed c.kind) (record w { clocks = set w.clocks i (lost c) }))
          (omega (arith, length-append pre (lost c ∷ [])))
          (ap (λ l. set l i (lost c)) e
            ∙ set-append_length pre cs c (lost c) i hi
            ∙ sym (append_assoc pre (lost c ∷ []) cs))
          h.1
      ∙ ap₂ (λ l o. some (record w { clocks = l; output = o }))
          (append_assoc pre (lost c ∷ []) (all_lost cs))
          (append_assoc w.output (destroyed c.kind ∷ []) (lines destroyed cs)
            ∙ ap (λ b. w.output ++ keep b (destroyed c.kind) (lines destroyed cs)) (sym alive))
  | inr gone ↦
      ap (λ b. notify_all false (keep b i (live (suc i) cs)) w) gone
      ∙ notify_all-lost (pre ++ lost c ∷ []) cs (suc i) w
          (omega (arith, length-append pre (lost c ∷ [])))
          (e
            ∙ ap (λ d. pre ++ d ∷ cs) (sym (lost-gone c gone))
            ∙ sym (append_assoc pre (lost c ∷ []) cs))
          h.1
      ∙ ap₂ (λ l o. some (record w { clocks = l; output = o }))
          (append_assoc pre (lost c ∷ []) (all_lost cs))
          (ap (λ b. w.output ++ keep b (destroyed c.kind) (lines destroyed cs)) (sym gone))
]

-- The observers are the clocks that have not been destroyed, in the order in which they were made, and
-- each of these has its subject; once the timer has been destroyed none of them has.
abbrev pub IsWatched : World → Type 0
IsWatched w =
    ((w.timer ≡ true) × (w.observers ≡ live 0 w.clocks) × All (Joined true) w.clocks)
    ⊎ ((w.timer ≡ false) × All (Joined false) w.clocks)

-- A timer that is there, whose observers are the clocks that have not been destroyed.
module _ (w : World) (there : w.timer ≡ true) (watching : w.observers ≡ live 0 w.clocks)
    (joined : All (Joined true) w.clocks) where
  -- If the observers of a timer are the clocks that have not been destroyed, and each of these has its
  -- subject: Tick ends, each of these clocks prints the new time, once and in the order in which they were
  -- made, and nothing else changes but the time.
  pub tick-lines :
      (now : Time)
      → tick now w
        ≡ some (record w {
          tm = some now;
          output = w.output ++ lines (λ k. updated k (some now)) w.clocks;
        })
  unfolding tick notify
  tick-lines now =
      ap (λ b. if b then notify_all true w.observers (record w { tm = some now }) else none) there
      ∙ ap (λ l. notify_all true l (record w { tm = some now })) watching
      ∙ notify_all-lines [] w.clocks 0 (record w { tm = some now }) refl refl joined

  -- Then the destructor of the timer takes the subject from each of these clocks, which say so in their order.
  pub delete_timer-lines :
      delete_timer w
      ≡ some (record w {
        timer = false;
        observers = [];
        clocks = all_lost w.clocks;
        output = w.output ++ lines destroyed w.clocks;
      })
  unfolding delete_timer notify
  delete_timer-lines =
      ap (λ b. if b then ended (notify_all false w.observers w) else none) there
      ∙ ap (λ l. ended (notify_all false l w)) watching
      ∙ ap ended (notify_all-lost [] w.clocks 0 w refl refl joined)

pub all_lost-Joined : (cs : List Clock) → All (Joined false) (all_lost cs)
all_lost-Joined [] = tt
all_lost-Joined (c ∷ cs) = (lost-Joined c, all_lost-Joined cs)
  where
    lost-Joined : (d : Clock) → Joined false (lost d)
    lost-Joined d e = ground arith
