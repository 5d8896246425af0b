-- ===== src/Player.antt =====
-- player.c: `read_data` fills a queue that `process_data`, a second thread, empties.
pub mod Order
pub mod Hang
pub mod Schedule
mod Witnesses
use personal_project.Common.{
  ℕ, ◌+◌, ◌≡◌, Bool, true, false, not, Option, none, some, List, [], ◌∷◌, ◌++◌, ◌==◌, if◌then◌else◌,
  length, get_or,
}
use personal_project.Decimal.{Bytes}

-- A pointer to a queue node: `NULL`, the end marker -1, or the node of the given number, the nodes
-- being counted in the order of their `malloc`.
pub data Pointer : Type 0 where
  null end_marker : Pointer
  node : ℕ → Pointer

-- Where `read_data` is: in its loop; before each of the two assignments behind it; at its end.
pub data Reader : Type 0 where
  reading marking leaving finished : Reader

-- Where `process_data` is, with `queue_release` where it is set.
pub data Worker : Type 0 where
  testing locking checking waiting taking stopped : Worker
  comparing clearing unlocking printing : ℕ → Worker

-- The two global pointers, the nodes with their `msg` and their `next`, what `getline` has still to
-- give, and what was printed. `crashed` says that a pointer that is no node was followed.
pub record Program : Type 0 where
  pub queue_start : Pointer
  pub queue_current : Pointer
  pub msgs : List Bytes
  pub next : ℕ → Pointer
  pub lines : List Bytes
  pub printed : List Bytes
  pub reader : Reader
  pub worker : Worker
  pub crashed : Bool

abbrev pub start : List Bytes → Program
start lines = record {
  queue_start = null;
  queue_current = null;
  msgs = [];
  next = λ i. null;
  lines = lines;
  printed = [];
  reader = reading;
  worker = testing;
  crashed = false;
}

-- The mutex is held by the worker in these places.
abbrev pub holds_mutex : Worker → Bool
holds_mutex checking = true
holds_mutex taking = true
holds_mutex (comparing r) = true
holds_mutex (clearing r) = true
holds_mutex (unlocking r) = true
holds_mutex _ = false

abbrev pub set_next : (ℕ → Pointer) → ℕ → Pointer → ℕ → Pointer
set_next next i p j = if j == i then p else next j

-- The locked part of the reader's loop: a new node goes to the end of the queue.
append_line : Pointer → Bytes → List Bytes → Program → Program
append_line null line rest s = record s {
  queue_start = node (length s.msgs);
  queue_current = node (length s.msgs);
  next = set_next s.next (length s.msgs) null;
  msgs = s.msgs ++ line ∷ [];
  lines = rest;
}
append_line (node c) line rest s = record s {
  queue_current = node (length s.msgs);
  next = set_next (set_next s.next c (node (length s.msgs))) (length s.msgs) null;
  msgs = s.msgs ++ line ∷ [];
  lines = rest;
}
append_line end_marker line rest s = record s { crashed = true }

-- `feof` is tested without the mutex.
read_line : List Bytes → Program → Option Program
read_line [] s = some (record s { reader = marking })
read_line (line ∷ rest) s =
    if holds_mutex s.worker then none else some (append_line s.queue_current line rest s)

-- `queue_current->next = (void*)-1`
mark : Pointer → Program → Program
mark (node c) s = record s { next = set_next s.next c end_marker; reader = leaving }
mark _ s = record s { crashed = true }

-- `queue_current = queue_current->next`
leave : Pointer → Program → Program
leave (node c) s = record s { queue_current = s.next c; reader = finished }
leave _ s = record s { crashed = true }

pub read_at : Reader → Program → Option Program
read_at reading s = read_line s.lines s
read_at marking s = some (mark s.queue_current s)
read_at leaving s = some (leave s.queue_current s)
read_at finished s = none

-- A step of `read_data`; `none` if it has to wait for the mutex, or has ended.
unfoldable pub reader_step : Program → Option Program
unfolding append_line read_line mark leave read_at
reader_step s = if s.crashed then none else read_at s.reader s

-- `while ((void*)-1 != queue_start)`
test_start : Pointer → Program → Program
test_start end_marker s = record s { worker = stopped }
test_start _ s = record s { worker = locking }

-- `while (NULL == queue_start)`
check_start : Pointer → Program → Program
check_start null s = record s { worker = waiting }
check_start _ s = record s { worker = taking }

take_start : Pointer → Program → Program
take_start (node r) s = record s { queue_start = s.next r; worker = comparing r }
take_start _ s = record s { crashed = true }

-- `queue_release == queue_current`
compare_current : ℕ → Pointer → Program → Program
compare_current r (node c) s = record s { worker = if r == c then clearing r else unlocking r }
compare_current r _ s = record s { worker = unlocking r }

pub work_at : Worker → Program → Option Program
work_at testing s = some (test_start s.queue_start s)
work_at locking s = some (record s { worker = checking })
work_at checking s = some (check_start s.queue_start s)
work_at waiting s = some (record s { worker = checking })
work_at taking s = some (take_start s.queue_start s)
work_at (comparing r) s = some (compare_current r s.queue_current s)
work_at (clearing r) s = some (record s { queue_current = null; worker = unlocking r })
work_at (unlocking r) s = some (record s { worker = printing r })
work_at (printing r) s =
    some (record s { printed = s.printed ++ get_or s.msgs r [] ∷ []; worker = testing })
work_at stopped s = none

-- A step of `process_data`. A waiting thread may wake at any time, as `pthread_cond_wait` allows.
unfoldable pub worker_step : Program → Option Program
unfolding test_start check_start take_start compare_current work_at
worker_step s = if s.crashed then none else work_at s.worker s

-- One of the two threads makes a step.
pub data Step (s : Program) (t : Program) : Type 0 where
  reads : reader_step s ≡ some t → Step s t
  works : worker_step s ≡ some t → Step s t

pub data Reach (s : Program) : Program → Type 0 where
  here : Reach s s
  further : {t u : Program} → Reach s t → Step t u → Reach s u
