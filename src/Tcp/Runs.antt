-- ===== src/Tcp/Runs.antt =====
-- The diagram of the states, and what holds after any calls on one connection.
use Prim.Native.String.{String}
use text.Mathlib.Text.{◌==◌ as same_line}
use personal_project.Common.{ℕ, suc, ◌≡◌, refl, sym, false, List, [], ◌∷◌, if◌then◌else◌, arith}
use personal_project.Tcp.{
  State, closed, established, listen, World, instance_of, Connection, change_state, said, Op,
  active_open, passive_open, close, send, acknowledge, synchronize, transmit, process_octet, handle,
  apply, run,
}

-- The diagram of the states: where a call takes a connection. A call without an arrow leaves it where it is.
abbrev pub diagram : State → Op → State
diagram closed active_open = established
diagram closed passive_open = established
diagram established transmit = listen
diagram established close = closed
diagram listen send = established
diagram listen close = closed
diagram s op = s

handle-diagram :
    (s : State) (op : Op) (c : Connection) → s ≡ c.state → (handle s op c).state ≡ diagram s op
unfolding handle change_state said
handle-diagram closed active_open c e = refl
handle-diagram closed passive_open c e = refl
handle-diagram closed close c e = sym e
handle-diagram closed send c e = sym e
handle-diagram closed acknowledge c e = sym e
handle-diagram closed synchronize c e = sym e
handle-diagram closed transmit c e = sym e
handle-diagram closed process_octet c e = sym e
handle-diagram established active_open c e = sym e
handle-diagram established passive_open c e = sym e
handle-diagram established close c e = refl
handle-diagram established send c e = sym e
handle-diagram established acknowledge c e = sym e
handle-diagram established synchronize c e = sym e
handle-diagram established transmit c e = refl
handle-diagram established process_octet c e = sym e
handle-diagram listen active_open c e = sym e
handle-diagram listen passive_open c e = sym e
handle-diagram listen close c e = refl
handle-diagram listen send c e = refl
handle-diagram listen acknowledge c e = sym e
handle-diagram listen synchronize c e = sym e
handle-diagram listen transmit c e = sym e
handle-diagram listen process_octet c e = sym e

pub apply-diagram : (op : Op) (c : Connection) → (apply op c).state ≡ diagram c.state op
unfolding apply
apply-diagram op c = handle-diagram c.state op c refl

handle-close : (s : State) (c : Connection) → s ≡ c.state → (handle s close c).state ≡ closed
unfolding handle change_state said
handle-close closed c e = sym e
handle-close established c e = refl
handle-close listen c e = refl

-- After any calls, `Close` leaves the connection closed.
pub run-close : (ops : List Op) (c : Connection) → (apply close (run ops c)).state ≡ closed
unfolding apply
run-close ops c = handle-close (run ops c).state (run ops c) refl

abbrev pub count : String → List String → ℕ
count line [] = 0
count line (l ∷ ls) = if same_line line l then suc (count line ls) else count line ls

-- The line of a constructor has been printed once if the instance has been made, and else never.
abbrev pub IsOnce : World → Type 0
IsOnce w =
    (count "TCPClosed" w.printed ≡ (if w.closed_made then 1 else 0))
    × (count "TCPListen" w.printed ≡ (if w.listen_made then 1 else 0))

pub instance_of-IsOnce : (s : State) (w : World) → IsOnce w → IsOnce (instance_of s w)
unfolding instance_of
instance_of-IsOnce closed w h = ground arith
instance_of-IsOnce established w h = h
instance_of-IsOnce listen w h = ground arith

handle-IsOnce :
    (s : State) (op : Op) (c : Connection) → IsOnce c.world → IsOnce (handle s op c).world
unfolding handle change_state said
handle-IsOnce closed active_open c h = instance_of-IsOnce established _ h
handle-IsOnce closed passive_open c h = instance_of-IsOnce established _ h
handle-IsOnce closed close c h = h
handle-IsOnce closed send c h = h
handle-IsOnce closed acknowledge c h = h
handle-IsOnce closed synchronize c h = h
handle-IsOnce closed transmit c h = h
handle-IsOnce closed process_octet c h = h
handle-IsOnce established active_open c h = h
handle-IsOnce established passive_open c h = h
handle-IsOnce established close c h = instance_of-IsOnce closed _ h
handle-IsOnce established send c h = h
handle-IsOnce established acknowledge c h = h
handle-IsOnce established synchronize c h = h
handle-IsOnce established transmit c h = instance_of-IsOnce listen _ h
handle-IsOnce established process_octet c h = h
handle-IsOnce listen active_open c h = h
handle-IsOnce listen passive_open c h = h
handle-IsOnce listen close c h = instance_of-IsOnce closed _ h
handle-IsOnce listen send c h = instance_of-IsOnce established _ h
handle-IsOnce listen acknowledge c h = h
handle-IsOnce listen synchronize c h = h
handle-IsOnce listen transmit c h = h
handle-IsOnce listen process_octet c h = h

pub apply-IsOnce : (op : Op) (c : Connection) → IsOnce c.world → IsOnce (apply op c).world
unfolding apply
apply-IsOnce op c h = handle-IsOnce c.state op c h

run-IsOnce : (ops : List Op) (c : Connection) → IsOnce c.world → IsOnce (run ops c).world
unfolding run
run-IsOnce [] c h = h
run-IsOnce (op ∷ ops) c h = run-IsOnce ops (apply op c) (apply-IsOnce op c h)

-- Before any connection is made.
abbrev pub fresh : World
fresh = record { closed_made = false; established_made = false; listen_made = false; printed = [] }
