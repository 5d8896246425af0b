-- ===== src/Tcp/Sessions.antt =====
-- Programs with any number of connections, whose calls come in any order.
use personal_project.Common.{
  set, get_elem?, Option, none, some, ◌++◌, ◌==◌, Bool-cases, ==→eq, length, get_elem?-set,
  get_elem?-length, get_elem?-append_one, ap, ◌∙◌, ℕ, ◌≡◌, refl, sym, List, [], ◌∷◌, if◌then◌else◌,
  inl, inr,
}
use personal_project.Tcp.{State, closed, World, Connection, connection, Op, apply}
use personal_project.Tcp.Runs.{
  diagram, apply-diagram, IsOnce, instance_of-IsOnce, apply-IsOnce, fresh,
}

-- What a program does: it makes a connection, or calls a function of the one that was made at this place.
pub data Command : Type 0 where
  connect : Command
  call : ℕ → Op → Command

-- The states of the connections in the order in which they were made, and the world that they share.
pub record Session : Type 0 where
  pub states : List State
  pub world : World

called : ℕ → List State → Connection → Session
called i states c = record { states = set states i c.state; world = c.world }

call_on : ℕ → Op → Option State → Session → Session
call_on i op none s = s
call_on i op (some state) s =
    called i s.states (apply op (record { state = state; world = s.world }))

unfoldable pub step : Command → Session → Session
unfolding called call_on
step connect s =
    let c = connection s.world in record { states = s.states ++ c.state ∷ []; world = c.world }
step (call i op) s = call_on i op (get_elem? s.states i) s

unfoldable pub session : List Command → Session → Session
session [] s = s
session (command ∷ commands) s = session commands (step command s)

abbrev pub no_connection : Session
no_connection = record { states = []; world = fresh }

call_on-IsOnce :
    (i : ℕ) (op : Op) (o : Option State) (s : Session)
    → IsOnce s.world
    → IsOnce (call_on i op o s).world
unfolding call_on called
call_on-IsOnce i op none s h = h
call_on-IsOnce i op (some state) s h = apply-IsOnce op (record { state = state; world = s.world }) h

step-IsOnce : (command : Command) (s : Session) → IsOnce s.world → IsOnce (step command s).world
unfolding step connection
step-IsOnce connect s h = instance_of-IsOnce closed s.world h
step-IsOnce (call i op) s h = call_on-IsOnce i op (get_elem? s.states i) s h

session_from-IsOnce :
    (commands : List Command) (s : Session) → IsOnce s.world → IsOnce (session commands s).world
unfolding session
session_from-IsOnce [] s h = h
session_from-IsOnce (command ∷ commands) s h =
    session_from-IsOnce commands (step command s) (step-IsOnce command s h)

-- Over any connections and any calls on them, in any order, the instance of `TCPClosed` and that of
-- `TCPListen` are each made at most once: each constructor's line is printed once if the instance
-- exists, and not at all if it does not.
pub session-IsOnce : (commands : List Command) → IsOnce (session commands no_connection).world
session-IsOnce commands = session_from-IsOnce commands no_connection (refl, refl)

-- The calls on the connection at the place `i`, in their order, as the diagram takes them.
abbrev pub automaton : ℕ → List Command → State → State
automaton i [] s = s
automaton i (connect ∷ commands) s = automaton i commands s
automaton i (call j op ∷ commands) s = automaton i commands (if i == j then diagram s op else s)

connect-state :
    (i : ℕ) (s : Session) (state : State)
    → get_elem? s.states i ≡ some state
    → get_elem? (step connect s).states i ≡ some state
unfolding step connection
connect-state i s state h = elim (Bool-cases (i == length s.states)) [
  | inl e ↦
      let out : some state ≡ none =
        sym h ∙ ap (get_elem? s.states) (==→eq i (length s.states) e) ∙ get_elem?-length s.states in
      absurd (cc out)
  | inr e ↦ get_elem?-append_one s.states closed i ∙ rw e h
]

call_on-state :
    (i j : ℕ) (op : Op) (o : Option State) (s : Session) (state : State)
    → get_elem? s.states j ≡ o
    → get_elem? s.states i ≡ some state
    → get_elem? (call_on j op o s).states i ≡ some (if i == j then diagram state op else state)
unfolding call_on called
call_on-state i j op none s state e h = elim (Bool-cases (i == j)) [
  | inl same ↦ absurd (cc (sym h ∙ ap (get_elem? s.states) (==→eq i j same) ∙ e))
  | inr other ↦ rw other h
]
call_on-state i j op (some q) s state e h =
    get_elem?-set s.states j i q _ e ∙ (elim (Bool-cases (i == j)) [
      | inl same ↦
          let one : some state ≡ some q = sym h ∙ ap (get_elem? s.states) (==→eq i j same) ∙ e in
          rw same (
            ap some (apply-diagram op (record { state = q; world = s.world }))
            ∙ ap (λ o. elim o [ none ↦ none | some s ↦ some (diagram s op) ]) (sym one))
      | inr other ↦ rw other h
    ])

-- Whatever else a program does, with the other connections and between the calls: a connection that is there
-- goes, call by call, where the diagram takes it, though all of them share the instances of the states.
pub session-automaton :
    (commands : List Command) (i : ℕ) (s : Session) (state : State)
    → get_elem? s.states i ≡ some state
    → get_elem? (session commands s).states i ≡ some (automaton i commands state)
unfolding session
session-automaton [] i s state h = h
session-automaton (connect ∷ commands) i s state h =
    session-automaton commands i (step connect s) state (connect-state i s state h)
session-automaton (call j op ∷ commands) i s state h =
    session-automaton commands i (step (call j op) s) (if i == j then diagram state op else state)
      (unfold step in call_on-state i j op (get_elem? s.states j) s state refl h)
