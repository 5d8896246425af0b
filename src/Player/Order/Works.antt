-- ===== src/Player/Order/Works.antt =====
-- The steps of `process_data` keep the invariant.
use personal_project.Common.{
  ℕ, suc, ◌<◌, ◌≡◌, inl, inr, refl, sym, ap, ◌∙◌, List, [], ◌∷◌, ◌++◌, append-nil, append_assoc,
  ◌==◌, length, get_or, length-append, get_or-append_length, Bool-cases, arith, ==→eq,
}
use personal_project.Decimal.{Bytes}
use personal_project.Player.{
  Pointer, null, end_marker, node, Worker, testing, locking, checking, waiting, taking, stopped,
  comparing, clearing, unlocking, printing, Program, test_start, check_start, take_start,
  compare_current, work_at,
}
use personal_project.Player.Order.Invariant.{OkAt, Safe, AllSafe, Ok-IsPrefix, rework}

module _ (input : List Bytes) where
  take_start-Safe :
      (p : Pointer) (s : Program)
      → OkAt input s taking s.reader p s.queue_current
      → Safe input (take_start p s)
  unfolding take_start
  take_start-Safe null s h = inl (refl, Ok-IsPrefix input h)
  take_start-Safe end_marker s h = inl (refl, Ok-IsPrefix input h)
  take_start-Safe (node r) s h =
      let (same, low) = h.at_front r refl in
      inr (record {
        texts = h.texts;
        rest = h.rest;
        shown = h.shown;
        held = (same, omega arith);
        at_front = λ j e. let (behind, there) = h.links r j e in (omega arith, there);
        links = h.links;
        empty = λ e. absurd (omega (arith, h.empty e));
        last = h.last;
        marked = h.marked;
      })

  compare_current-Safe :
      (r : ℕ) (p : Pointer) (s : Program)
      → p ≡ s.queue_current
      → OkAt input s (comparing r) s.reader s.queue_start s.queue_current
      → Safe input (compare_current r p s)
  unfolding compare_current
  compare_current-Safe r null s e h = inr (rework input (comparing r) (unlocking r) refl h.held h)
  compare_current-Safe r end_marker s e h =
      inr (rework input (comparing r) (unlocking r) refl h.held h)
  compare_current-Safe r (node c) s e h = elim (Bool-cases (r == c)) [
    | inl same ↦ rw same (
        inr (
          rework input (comparing r) (clearing r) refl
            (h.held.0, omega (arith, h.held.0, h.last c (sym e), ==→eq r c same)) h))
    | inr other ↦ rw other (inr (rework input (comparing r) (unlocking r) refl h.held h))
  ]

  clear-Safe :
      (r : ℕ) (s : Program)
      → OkAt input s (clearing r) s.reader s.queue_start s.queue_current
      → Safe input (record s { queue_current = null; worker = unlocking r })
  clear-Safe r s h = inr (record {
    texts = h.texts;
    rest = h.rest;
    shown = h.shown;
    held = (h.held.0, omega (arith, h.held.1));
    at_front = h.at_front;
    links = h.links;
    empty = λ e. h.held.1;
    last = λ c e. absurd (cc e);
    marked = λ leaves c e. absurd (cc e);
  })

  -- The rest of what was read starts with the node in hand.
  print-rest :
      (msgs printed rest : List Bytes)
      → printed ++ rest ≡ msgs
      → length printed < length msgs
      → (later : List Bytes) × ((printed ++ get_or msgs (length printed) [] ∷ []) ++ later ≡ msgs)
  print-rest msgs printed [] e h =
      let whole : printed ≡ msgs = sym (append-nil printed) ∙ e in
      absurd (omega (arith, ap length whole))
  print-rest msgs printed (m ∷ later) e h = (
    later,
    append_assoc printed (get_or msgs (length printed) [] ∷ []) later
        ∙ ap (λ x. printed ++ x ∷ later)
            (ap (λ t. get_or t (length printed) []) (sym e)
              ∙ get_or-append_length printed later m [] (length printed) refl)
        ∙ e,
  )

  print-Safe :
      (r : ℕ) (s : Program)
      → OkAt input s (printing r) s.reader s.queue_start s.queue_current
      → Safe input (record s { printed = s.printed ++ get_or s.msgs r [] ∷ []; worker = testing })
  print-Safe r s h =
      let (later, shown) = print-rest s.msgs s.printed h.rest h.shown h.held.1 in
      let count : length (s.printed ++ get_or s.msgs r [] ∷ []) ≡ suc (length s.printed) =
        length-append s.printed (get_or s.msgs r [] ∷ []) ∙ omega arith in
      inr (record {
        texts = h.texts;
        rest = later;
        shown = ap (λ i. (s.printed ++ get_or s.msgs i [] ∷ []) ++ later) h.held.0 ∙ shown;
        held = tt;
        at_front = λ j e. ((h.at_front j e).0 ∙ sym count, (h.at_front j e).1);
        links = h.links;
        empty = λ e. count ∙ h.empty e;
        last = h.last;
        marked = h.marked;
      })

  test_start-Safe :
      (p : Pointer) (s : Program)
      → OkAt input s testing s.reader s.queue_start s.queue_current
      → Safe input (test_start p s)
  unfolding test_start
  test_start-Safe null s h = inr (rework input testing locking refl tt h)
  test_start-Safe end_marker s h = inr (rework input testing stopped refl tt h)
  test_start-Safe (node i) s h = inr (rework input testing locking refl tt h)

  check_start-Safe :
      (p : Pointer) (s : Program)
      → OkAt input s checking s.reader s.queue_start s.queue_current
      → Safe input (check_start p s)
  unfolding check_start
  check_start-Safe null s h = inr (rework input checking waiting refl tt h)
  check_start-Safe end_marker s h = inr (rework input checking taking refl tt h)
  check_start-Safe (node i) s h = inr (rework input checking taking refl tt h)

  pub work_at-Safe :
      (w : Worker) (s : Program)
      → OkAt input s w s.reader s.queue_start s.queue_current
      → AllSafe input (work_at w s)
  unfolding work_at
  work_at-Safe testing s h = test_start-Safe s.queue_start s h
  work_at-Safe locking s h = inr (rework input locking checking refl tt h)
  work_at-Safe checking s h = check_start-Safe s.queue_start s h
  work_at-Safe waiting s h = inr (rework input waiting checking refl tt h)
  work_at-Safe taking s h = take_start-Safe s.queue_start s h
  work_at-Safe (comparing r) s h = compare_current-Safe r s.queue_current s refl h
  work_at-Safe (clearing r) s h = clear-Safe r s h
  work_at-Safe (unlocking r) s h = inr (rework input (unlocking r) (printing r) refl h.held h)
  work_at-Safe (printing r) s h = print-Safe r s h
  work_at-Safe stopped s h = tt
