-- ===== src/Player/Order/Reads.antt =====
-- The steps of `read_data` keep the invariant.
use personal_project.Common.{
  ℕ, suc, ◌+◌, ◌<◌, ◌≡◌, inl, inr, refl, sym, ap, ◌∙◌, false, List, [], ◌∷◌, ◌++◌, append_assoc,
  ◌==◌, if◌then◌else◌, length, length-append, Bool-cases, arith, ==→eq, eq→==,
}
use personal_project.Decimal.{Bytes}
use personal_project.Player.{
  Pointer, null, end_marker, node, Reader, reading, marking, leaving, finished, Worker, testing,
  locking, checking, waiting, taking, stopped, comparing, clearing, unlocking, printing, Program,
  holds_mutex, set_next, append_line, read_line, mark, leave, read_at,
}
use personal_project.Player.Order.Invariant.{node_inj, Held, OkAt, Safe, AllSafe, Ok-IsPrefix}

module _ (input : List Bytes) where
  -- A further node leaves what is in hand, if the mutex is free.
  Held-suc : (w : Worker) (p n : ℕ) → holds_mutex w ≡ false → Held w p n → Held w p (n + 1)
  Held-suc (printing r) p n free h = (h.0, omega (arith, h.1))
  Held-suc (comparing r) p n free h = absurd (cc free)
  Held-suc (clearing r) p n free h = absurd (cc free)
  Held-suc (unlocking r) p n free h = absurd (cc free)
  Held-suc testing p n free h = tt
  Held-suc locking p n free h = tt
  Held-suc checking p n free h = tt
  Held-suc waiting p n free h = tt
  Held-suc taking p n free h = tt
  Held-suc stopped p n free h = tt

  -- The links after one is set.
  set_next-links :
      (next : ℕ → Pointer) (c m n : ℕ) (q : Pointer)
      → m < n + 1
      → ((i j : ℕ) → next i ≡ node j → (j ≡ suc i) × (j < m))
      → ((j : ℕ) → q ≡ node j → (j ≡ suc c) × (j < n))
      → (i j : ℕ) → set_next next c q i ≡ node j
      → (j ≡ suc i) × (j < n)
  set_next-links next c m n q low links new i j e = elim (Bool-cases (i == c)) [
    | inl same ↦
        let pointer : (if i == c then q else next i) ≡ q = ap (λ b. if b then q else next i) same in
        let (behind, inside) = new j (sym pointer ∙ e) in (omega (arith, ==→eq i c same), inside)
    | inr other ↦
        let pointer : (if i == c then q else next i) ≡ next i =
          ap (λ b. if b then q else next i) other in
        let (behind, inside) = links i j (sym pointer ∙ e) in (behind, omega arith)
  ]

  null-node : (P : Type 0) (j : ℕ) → null ≡ node j → P
  null-node P j e = absurd (cc e)

  grown : (msgs : List Bytes) (line : Bytes) → length (msgs ++ line ∷ []) ≡ length msgs + 1
  grown msgs line = length-append msgs (line ∷ [])

  append_line-Safe :
      (p : Pointer) (line : Bytes) (rest : List Bytes) (s : Program)
      → p ≡ s.queue_current
      → line ∷ rest ≡ s.lines
      → holds_mutex s.worker ≡ false
      → s.reader ≡ reading
      → OkAt input s s.worker s.reader s.queue_start s.queue_current
      → Safe input (append_line p line rest s)
  unfolding append_line
  append_line-Safe end_marker line rest s e el free er h = inl (refl, Ok-IsPrefix input h)
  append_line-Safe null line rest s e el free er h =
      let n : length (s.msgs ++ line ∷ []) ≡ length s.msgs + 1 = grown s.msgs line in
      inr (record {
        texts = append_assoc s.msgs (line ∷ []) rest ∙ ap (λ l. s.msgs ++ l) el ∙ h.texts;
        rest = h.rest ++ line ∷ [];
        shown = sym (append_assoc s.printed h.rest (line ∷ [])) ∙ ap (λ m. m ++ line ∷ []) h.shown;
        held = rw n (Held-suc s.worker (length s.printed) (length s.msgs) free h.held);
        at_front = λ j f. (
          sym (node_inj (length s.msgs) j f) ∙ sym (h.empty (sym e)),
          omega (arith, n, node_inj (length s.msgs) j f),
        );
        links =
            set_next-links s.next (length s.msgs) (length s.msgs) (length (s.msgs ++ line ∷ []))
              null (omega (arith, n)) h.links (λ j f. null-node _ j f);
        empty = λ f. absurd (cc f);
        last = λ c f. omega (arith, n, node_inj (length s.msgs) c f);
        marked = λ leaves c f. absurd (cc (er, leaves));
      })
  append_line-Safe (node c) line rest s e el free er h =
      let n : length (s.msgs ++ line ∷ []) ≡ length s.msgs + 1 = grown s.msgs line in
      inr (record {
        texts = append_assoc s.msgs (line ∷ []) rest ∙ ap (λ l. s.msgs ++ l) el ∙ h.texts;
        rest = h.rest ++ line ∷ [];
        shown = sym (append_assoc s.printed h.rest (line ∷ [])) ∙ ap (λ m. m ++ line ∷ []) h.shown;
        held = rw n (Held-suc s.worker (length s.printed) (length s.msgs) free h.held);
        at_front = λ j f. ((h.at_front j f).0, omega (arith, n, (h.at_front j f).1));
        links =
            set_next-links (set_next s.next c (node (length s.msgs))) (length s.msgs)
              (length (s.msgs ++ line ∷ [])) (length (s.msgs ++ line ∷ [])) null (omega (arith, n))
              (set_next-links s.next c (length s.msgs) (length (s.msgs ++ line ∷ []))
                (node (length s.msgs)) (omega (arith, n)) h.links
                (λ j f. (
                  sym (node_inj (length s.msgs) j f) ∙ sym (h.last c (sym e)),
                  omega (arith, n, node_inj (length s.msgs) j f),
                )))
              (λ j f. null-node _ j f);
        empty = λ f. absurd (cc f);
        last = λ d f. omega (arith, n, node_inj (length s.msgs) d f);
        marked = λ leaves d f. absurd (cc (er, leaves));
      })

  read_line-Safe :
      (lines : List Bytes) (s : Program)
      → lines ≡ s.lines
      → s.reader ≡ reading
      → OkAt input s s.worker s.reader s.queue_start s.queue_current
      → AllSafe input (read_line lines s)
  unfolding read_line
  read_line-Safe [] s el er h = inr (record {
    texts = h.texts;
    rest = h.rest;
    shown = h.shown;
    held = h.held;
    at_front = h.at_front;
    links = h.links;
    empty = h.empty;
    last = h.last;
    marked = λ leaves c e. absurd (cc leaves);
  })
  read_line-Safe (line ∷ rest) s el er h = elim (Bool-cases (holds_mutex s.worker)) [
    | inl held ↦ rw held tt
    | inr free ↦ rw free (append_line-Safe s.queue_current line rest s refl el free er h)
  ]

  mark-Safe :
      (p : Pointer) (s : Program)
      → p ≡ s.queue_current
      → OkAt input s s.worker s.reader s.queue_start s.queue_current
      → Safe input (mark p s)
  unfolding mark
  mark-Safe null s e h = inl (refl, Ok-IsPrefix input h)
  mark-Safe end_marker s e h = inl (refl, Ok-IsPrefix input h)
  mark-Safe (node c) s e h = inr (record {
    texts = h.texts;
    rest = h.rest;
    shown = h.shown;
    held = h.held;
    at_front = h.at_front;
    links =
        set_next-links s.next c (length s.msgs) (length s.msgs) end_marker (omega arith) h.links
          (λ j f. absurd (cc f));
    empty = h.empty;
    last = h.last;
    marked = λ leaves d f.
        ap (λ b. if b then end_marker else s.next d) (eq→== d c (node_inj d c (sym f ∙ sym e)));
  })

  leave-Safe :
      (p : Pointer) (s : Program)
      → p ≡ s.queue_current
      → s.reader ≡ leaving
      → OkAt input s s.worker s.reader s.queue_start s.queue_current
      → Safe input (leave p s)
  unfolding leave
  leave-Safe null s e er h = inl (refl, Ok-IsPrefix input h)
  leave-Safe end_marker s e er h = inl (refl, Ok-IsPrefix input h)
  leave-Safe (node c) s e er h =
      let end : s.next c ≡ end_marker = h.marked er c (sym e) in
      inr (record {
        texts = h.texts;
        rest = h.rest;
        shown = h.shown;
        held = h.held;
        at_front = h.at_front;
        links = h.links;
        empty = λ f. absurd (cc (end, f));
        last = λ d f. absurd (cc (end, f));
        marked = λ leaves d f. absurd (cc leaves);
      })

  pub read_at-Safe :
      (r : Reader) (s : Program)
      → r ≡ s.reader
      → OkAt input s s.worker s.reader s.queue_start s.queue_current
      → AllSafe input (read_at r s)
  unfolding read_at
  read_at-Safe reading s e h = read_line-Safe s.lines s refl (sym e) h
  read_at-Safe marking s e h = mark-Safe s.queue_current s refl h
  read_at-Safe leaving s e h = leave-Safe s.queue_current s refl (sym e) h
  read_at-Safe finished s e h = tt
