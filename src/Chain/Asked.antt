-- ===== src/Chain/Asked.antt =====
-- Who answers a request, and when the request ends.
use personal_project.Common.{
  ℕ, zero, suc, ◌+◌, ◌<◌, ◌≤◌, ◌≡◌, ◌≢◌, refl, ap, sym, ◌∙◌, inl, inr, Bool-cases, true, false,
  Option, Option-cases, none, some, List, [], ◌∷◌, arith, if◌then◌else◌, get_elem?, get_elem?-set,
  get_elem?-below, set, eq→==, length,
}
use mathlib.Core.Path.{subst}
use personal_project.Decimal.{ℤ}
use mathlib.Core.Option.{some-injective}
use personal_project.Chain.{
  Class, application, Handler, Help, help_from, no_help, has_help, forward, handle_help,
  new_handler, set_handler, no_help_topic,
}

-- Whether an object hands a request on that it has no help for.
abbrev pub hands_on : Handler → Option ℕ
hands_on h = elim h.class [ application ↦ none | _ ↦ h.successor ]

-- The objects that a request passes if nobody has help.
pub data Chained (heap : List Handler) : ℕ → List Handler → Type 0 where
  last :
      {k : ℕ} (h : Handler)
      → get_elem? heap k ≡ some h
      → hands_on h ≡ none
      → Chained heap k (h ∷ [])
  next :
      {k j : ℕ} {hs : List Handler} (h : Handler)
      → get_elem? heap k ≡ some h
      → hands_on h ≡ some j
      → Chained heap j hs
      → Chained heap k (h ∷ hs)

-- What the last object says that has no help.
abbrev pub at_end : Class → List Help
at_end application = []
at_end _ = no_help ∷ []

-- The answer of the first object in the chain that has help.
abbrev pub first_answer : List Handler → List Help
first_answer [] = []
first_answer (h ∷ []) = if has_help h then help_from h.class ∷ [] else at_end h.class
first_answer (h ∷ g ∷ hs) = if has_help h then help_from h.class ∷ [] else first_answer (g ∷ hs)

module _ (heap : List Handler) (fuel k : ℕ) (h : Handler) (e : get_elem? heap k ≡ some h) where
  handle_help-help :
      has_help h ≡ true → handle_help (suc fuel) heap k ≡ some (help_from h.class ∷ [])
  unfolding handle_help
  handle_help-help has = rw (handle_help, e, has)

  handle_help-last :
      has_help h ≡ false → hands_on h ≡ none → handle_help (suc fuel) heap k ≡ some (at_end h.class)
  unfolding handle_help forward
  handle_help-last has end = ground (arith, e)

  handle_help-next :
      (j : ℕ)
      → has_help h ≡ false
      → hands_on h ≡ some j
      → handle_help (suc fuel) heap k ≡ handle_help fuel heap j
  unfolding handle_help forward
  handle_help-next j has on = ground (arith, e)

module _ {heap : List Handler} where
  first_answer-next :
      {j : ℕ} {hs : List Handler} (h : Handler)
      → has_help h ≡ false
      → Chained heap j hs
      → first_answer (h ∷ hs) ≡ first_answer hs
  first_answer-next h has (last g e end) = rw has
  first_answer-next h has (next g e on rest) = rw has

  first_answer-help :
      {j : ℕ} {hs : List Handler} (h : Handler)
      → has_help h ≡ true
      → Chained heap j hs
      → first_answer (h ∷ hs) ≡ help_from h.class ∷ []
  first_answer-help h has (last g e end) = rw has
  first_answer-help h has (next g e on rest) = rw has

  -- Fuel for the objects of the chain is enough.
  handle_help-first :
      {k : ℕ} {hs : List Handler} (fuel : ℕ)
      → Chained heap k hs
      → length hs ≤ fuel
      → handle_help fuel heap k ≡ some (first_answer hs)
  handle_help-first zero (last h e end) enough = absurd (omega arith)
  handle_help-first zero (next h e on rest) enough = absurd (omega arith)
  handle_help-first (suc fuel) (last {k = k} h e end) enough = elim (Bool-cases (has_help h)) [
    | inl has ↦ handle_help-help heap fuel k h e has ∙ rw has
    | inr has ↦ handle_help-last heap fuel k h e has end ∙ rw has
  ]
  handle_help-first (suc fuel) (next {k = k} {j = j} h e on rest) enough =
      elim (Bool-cases (has_help h)) [
        | inl has ↦
            handle_help-help heap fuel k h e has ∙ ap some (sym (first_answer-help h has rest))
        | inr has ↦
            handle_help-next heap fuel k h e j has on
            ∙ handle_help-first fuel rest (omega arith)
            ∙ ap some (sym (first_answer-next h has rest))
      ]

-- An object hands on to one that was made before it, as the constructors see to.
abbrev pub Before : ℕ → Option ℕ → Type 0
Before i none = Unit {0}
Before i (some j) = j < i

abbrev pub Ordered : ℕ → List Handler → Type 0
Ordered i [] = Unit {0}
Ordered i (h ∷ hs) = Before i h.successor × Ordered (suc i) hs

Ordered-get :
    (heap : List Handler) (i k : ℕ) (h : Handler)
    → Ordered i heap
    → get_elem? heap k ≡ some h
    → Before (i + k) h.successor
Ordered-get [] i k h o e = absurd (cc e)
Ordered-get (g ∷ gs) i zero h o e =
    subst (λ (x : Handler). Before (i + 0) x.successor) (some-injective _ _ e)
      (subst (λ (n : ℕ). Before n g.successor) (omega arith) o.0)
Ordered-get (g ∷ gs) i (suc k) h o e =
    subst (λ (n : ℕ). Before n h.successor) (omega arith) (Ordered-get gs (suc i) k h o.1 e)

new_handler-Ordered :
    (heap : List Handler) (i : ℕ) (c : Class) (successor : Option ℕ) (topic : ℤ)
    → Ordered i heap
    → Before (i + length heap) successor
    → Ordered i (new_handler c successor topic heap)
unfolding new_handler
new_handler-Ordered [] i c successor topic o b =
    (subst (λ (n : ℕ). Before n successor) (omega arith) b, tt)
new_handler-Ordered (g ∷ gs) i c successor topic o b = (
  o.0,
  new_handler-Ordered gs (suc i) c successor topic o.1
      (subst (λ (n : ℕ). Before n successor) (omega arith) b),
)

hands_on-successor : (h : Handler) (j : ℕ) → hands_on h ≡ some j → h.successor ≡ some j
hands_on-successor h j e = ground arith

module _ (heap : List Handler) (ordered : Ordered 0 heap) where
  chain_from :
      (bound k : ℕ)
      → k < bound
      → k < length heap
      → (hs : List Handler) × Chained heap k hs × (length hs ≤ suc k)
  chain_from zero k lt inside = absurd (omega arith)
  chain_from (suc bound) k lt inside =
      let (h, e) = get_elem?-below heap k inside in
      elim (Option-cases (hands_on h)) [
        | inl end ↦ (h ∷ [], last h e end, omega arith)
        | inr (j, on) ↦
            let earlier : j < 0 + k =
              subst (Before (0 + k)) (hands_on-successor h j on)
                (Ordered-get heap 0 k h ordered e) in
            let (hs, chained, short) = chain_from bound j (omega arith) (omega arith) in
            (h ∷ hs, next h e on chained, omega arith)
      ]

  -- If each object's successor was made before it: a request to any object ends, after it has asked no more objects
  -- than were made up to this one, and prints the answer of the first object in its chain that has help, or
  -- what the last one says.
  pub handle_help-answers :
      (k : ℕ)
      → k < length heap
      → (hs : List Handler) × Chained heap k hs
        × (handle_help (suc k) heap k ≡ some (first_answer hs))
  handle_help-answers k inside =
      let (hs, chained, short) = chain_from (suc k) k (omega arith) inside in
      (hs, chained, handle_help-first (suc k) chained short)

set_handler-some :
    (k : ℕ) (successor : Option ℕ) (topic : ℤ) (heap : List Handler) (h : Handler)
    → get_elem? heap k ≡ some h
    → set_handler k successor topic heap
      ≡ set heap k (record h { successor = successor; topic = topic })
unfolding set_handler
set_handler-some k successor topic heap h e = rw (set_handler, e)

-- An object that SetHandler makes its own successor, without a topic, asks itself for ever, unless it is an
-- application.
handle_help-set_handler :
    (fuel k : ℕ) (heap : List Handler) (h : Handler)
    → get_elem? heap k ≡ some h
    → h.class ≢ application
    → handle_help fuel (set_handler k (some k) no_help_topic heap) k ≡ none
unfolding handle_help
handle_help-set_handler zero k heap h e other = refl
handle_help-set_handler (suc fuel) k heap h e other =
    handle_help-next (set_handler k (some k) no_help_topic heap) fuel k g found k refl onward
    ∙ handle_help-set_handler fuel k heap h e other
  where
    g : Handler
    g = record h { successor = some k; topic = no_help_topic }

    found : get_elem? (set_handler k (some k) no_help_topic heap) k ≡ some g
    found =
        ap (λ l. get_elem? l k) (set_handler-some k (some k) no_help_topic heap h e)
        ∙ get_elem?-set heap k k h g e
        ∙ rw (eq→== k k refl)

    onward : hands_on g ≡ some k
    onward = ground arith
