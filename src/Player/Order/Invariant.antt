-- ===== src/Player/Order/Invariant.antt =====
-- The invariant of the queue.
use personal_project.Common.{
  ℕ, suc, ◌<◌, ◌≡◌, ◌⊎◌, sym, ap, ◌∙◌, true, Option, none, some, List, ◌++◌, append_assoc, length,
}
use personal_project.Decimal.{Bytes}
use personal_project.Player.{
  Pointer, null, end_marker, node, Reader, leaving, Worker, comparing, clearing, unlocking,
  printing, Program,
}

abbrev pub number : Pointer → ℕ
number null = 0
number end_marker = 0
number (node i) = i

pub node_inj : (i j : ℕ) → node i ≡ node j → i ≡ j
node_inj i j e = ap number e

-- The number of nodes that have been taken, where `p` have been printed.
abbrev pub front : Worker → ℕ → ℕ
front (comparing r) p = suc p
front (clearing r) p = suc p
front (unlocking r) p = suc p
front (printing r) p = suc p
front _ p = p

-- The node in hand is the one behind those printed.
abbrev pub Held : Worker → ℕ → ℕ → Type 0
Held (comparing r) p n = (r ≡ p) × (p < n)
Held (clearing r) p n = (r ≡ p) × (suc p ≡ n)
Held (unlocking r) p n = (r ≡ p) × (p < n)
Held (printing r) p n = (r ≡ p) × (p < n)
Held _ p n = Unit

module _ (input : List Bytes) where
  -- The queue from `queue_start` to `queue_current` is what was read and not taken.
  pub record Ok (first current : Pointer) (msgs : List Bytes) (next : ℕ → Pointer)
      (lines printed : List Bytes) (r : Reader) (w : Worker) : Type 0 where
    pub texts : msgs ++ lines ≡ input
    pub rest : List Bytes
    pub shown : printed ++ rest ≡ msgs
    pub held : Held w (length printed) (length msgs)
    pub at_front : (j : ℕ) → first ≡ node j → (j ≡ front w (length printed)) × (j < length msgs)
    pub links : (i j : ℕ) → next i ≡ node j → (j ≡ suc i) × (j < length msgs)
    pub empty : current ≡ null → front w (length printed) ≡ length msgs
    pub last : (c : ℕ) → current ≡ node c → suc c ≡ length msgs
    pub marked : r ≡ leaving → (c : ℕ) → current ≡ node c → next c ≡ end_marker

  abbrev pub OkAt : Program → Worker → Reader → Pointer → Pointer → Type 0
  OkAt s w r first current = Ok first current s.msgs s.next s.lines s.printed r w

  abbrev pub IsPrefix : List Bytes → Type 0
  IsPrefix printed = (later : List Bytes) × (printed ++ later ≡ input)

  abbrev pub Safe : Program → Type 0
  Safe s =
      ((s.crashed ≡ true) × IsPrefix s.printed)
      ⊎ OkAt s s.worker s.reader s.queue_start s.queue_current

  pub Ok-IsPrefix :
      {first current : Pointer} {msgs : List Bytes} {next : ℕ → Pointer}
      {lines printed : List Bytes} {r : Reader} {w : Worker}
      → Ok first current msgs next lines printed r w
      → IsPrefix printed
  Ok-IsPrefix {lines = lines} {printed = printed} h = (
    h.rest ++ lines,
    sym (append_assoc printed h.rest lines) ∙ ap (λ m. m ++ lines) h.shown ∙ h.texts,
  )

  -- The worker goes on without taking a node or printing one.
  pub rework :
      {first current : Pointer} {msgs : List Bytes} {next : ℕ → Pointer}
      {lines printed : List Bytes} {r : Reader} (w v : Worker)
      → front w (length printed) ≡ front v (length printed)
      → Held v (length printed) (length msgs)
      → Ok first current msgs next lines printed r w
      → Ok first current msgs next lines printed r v
  rework w v same in_hand h = record {
    texts = h.texts;
    rest = h.rest;
    shown = h.shown;
    held = in_hand;
    at_front = λ j e. ((h.at_front j e).0 ∙ same, (h.at_front j e).1);
    links = h.links;
    empty = λ e. sym same ∙ h.empty e;
    last = h.last;
    marked = h.marked;
  }

  abbrev pub AllSafe : Option Program → Type 0
  AllSafe none = Unit
  AllSafe (some t) = Safe t
