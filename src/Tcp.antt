-- ===== src/Tcp.antt =====
-- TCPConnection, TCPState and its three states (TCP*.h, TCP*.cpp): the state pattern.
pub mod Runs
pub mod Sessions
mod Witnesses
use Prim.Native.String.{String}
use personal_project.Common.{Bool, true, false, List, [], ◌∷◌, if◌then◌else◌}

-- The three classes that have an instance.
pub data State : Type 0 where
  closed established listen : State

-- The static `instance_` of each class, and the lines printed so far, the last one first.
pub record World : Type 0 where
  pub closed_made : Bool
  pub established_made : Bool
  pub listen_made : Bool
  pub printed : List String

abbrev pub print : String → World → World
print line w = record w { printed = line ∷ w.printed }

-- `Instance()` of the three classes; two of the constructors print a line.
closed_instance : World → World
closed_instance w = if w.closed_made then w else print "TCPClosed" (record w { closed_made = true })

established_instance : World → World
established_instance w = record w { established_made = true }

listen_instance : World → World
listen_instance w = if w.listen_made then w else print "TCPListen" (record w { listen_made = true })

unfoldable pub instance_of : State → World → World
unfolding closed_instance established_instance listen_instance
instance_of closed w = closed_instance w
instance_of established w = established_instance w
instance_of listen w = listen_instance w

pub record Connection : Type 0 where
  pub state : State
  pub world : World

-- The constructor of `TCPConnection`.
unfoldable pub connection : World → Connection
unfolding instance_of
connection w = record { state = closed; world = print "TCPConnection" (instance_of closed w) }

-- `ChangeState(conn, ...::Instance())`
change_state : State → Connection → Connection
change_state s c = record { state = s; world = instance_of s c.world }

said : String → Connection → Connection
said line c = record c { world = print line c.world }

pub data Op : Type 0 where
  active_open passive_open close send acknowledge synchronize transmit process_octet : Op

-- The virtual functions of `TCPState`, which do nothing, and of its classes. `ProcessOctet` calls none.
tcp_state : Op → Connection → Connection
tcp_state op c = c

tcp_closed : Op → Connection → Connection
tcp_closed active_open c = change_state established (said "ActiveOpen from TCPClosed" c)
tcp_closed passive_open c = change_state established (said "PassiveOpen from TCPClosed" c)
tcp_closed op c = tcp_state op c

tcp_established : Op → Connection → Connection
tcp_established transmit c = change_state listen (said "transmitting from TCPEstablished" c)
tcp_established close c = change_state closed (said "closing TCPEstablished" c)
tcp_established op c = tcp_state op c

tcp_listen : Op → Connection → Connection
tcp_listen send c = change_state established (said "sending from TCPListen" c)
tcp_listen close c = change_state closed (said "closing from TCPListen" c)
tcp_listen op c = tcp_state op c

-- The call of `state_`.
handle : State → Op → Connection → Connection
unfolding tcp_state tcp_closed tcp_established tcp_listen
handle closed op c = tcp_closed op c
handle established op c = tcp_established op c
handle listen op c = tcp_listen op c

-- The functions of `TCPConnection`, which call those of its state.
unfoldable pub apply : Op → Connection → Connection
unfolding handle change_state said instance_of
apply op c = handle c.state op c

unfoldable pub run : List Op → Connection → Connection
run [] c = c
run (op ∷ ops) c = run ops (apply op c)
