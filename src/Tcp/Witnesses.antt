-- ===== src/Tcp/Witnesses.antt =====
-- The theorems on the connections at a concrete program.
use personal_project.Common.{◌≡◌, refl, some, List, [], ◌∷◌, get_elem?}
use personal_project.Tcp.{closed, listen, active_open, transmit, close, connection}
use personal_project.Tcp.Runs.{IsOnce}
use personal_project.Tcp.Sessions.{
  Command, connect, call, step, session, no_connection, session-IsOnce, session-automaton,
}

-- Two connections whose calls come between each other.
abbrev program : List Command
program = call 0 active_open ∷ connect ∷ call 1 active_open ∷ call 0 transmit ∷ call 1 close ∷ []

session-automaton_example :
    get_elem? (session program (step connect no_connection)).states 0 ≡ some listen
unfolding step connection
session-automaton_example = session-automaton program 0 (step connect no_connection) closed refl

session-IsOnce_example : IsOnce (session (connect ∷ program) no_connection).world
session-IsOnce_example = session-IsOnce (connect ∷ program)
