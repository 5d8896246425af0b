-- ===== src/Interpreter/Meaning.antt =====
-- What expressions mean, and what `Replace` and `Assign` do to it.
use personal_project.Common.{
  take, length, arith, [], ◌∷◌, ◌≡◌, refl, sym, ap, ap₂, ◌∙◌, Bool, true, false, not, ◌&&◌, ◌||◌,
  equal_bytes_eq, Option, some, if◌then◌else◌, equal_bytes, equal_bytes_refl, Bool-cases, inl, inr,
}
use mathlib.Core.List.{map}
use personal_project.Decimal.{Bytes, to_lower}
use personal_project.Interpreter.{
  BooleanExp, variable_exp, and_exp, or_exp, not_exp, const_exp, Context, empty, pair, at, lookup,
  assign, same_start, is_replaced, and_then, or_else, negated, evaluate, copy, replace,
}

-- The meaning of an expression under any values of its variables.
unfoldable pub meaning : (Bytes → Option Bool) → BooleanExp → Option Bool
meaning value (variable_exp name) = value name
meaning value (and_exp e f) = and_then (meaning value e) (meaning value f)
meaning value (or_exp e f) = or_else (meaning value e) (meaning value f)
meaning value (not_exp e) = negated (meaning value e)
meaning value (const_exp b) = some b

pub evaluate-meaning : (c : Context) (e : BooleanExp) → evaluate c e ≡ meaning (lookup c) e
unfolding evaluate meaning
evaluate-meaning c (variable_exp name) = refl
evaluate-meaning c (and_exp e f) = ap₂ and_then (evaluate-meaning c e) (evaluate-meaning c f)
evaluate-meaning c (or_exp e f) = ap₂ or_else (evaluate-meaning c e) (evaluate-meaning c f)
evaluate-meaning c (not_exp e) = ap negated (evaluate-meaning c e)
evaluate-meaning c (const_exp b) = refl

pub copy-same : (e : BooleanExp) → copy e ≡ e
unfolding copy
copy-same (variable_exp name) = refl
copy-same (and_exp e f) = ap₂ and_exp (copy-same e) (copy-same f)
copy-same (or_exp e f) = ap₂ or_exp (copy-same e) (copy-same f)
copy-same (not_exp e) = ap not_exp (copy-same e)
copy-same (const_exp b) = refl

evaluate-if :
    (c : Context) (b : Bool) (e f : BooleanExp)
    → evaluate c (if b then e else f) ≡ (if b then evaluate c e else evaluate c f)
evaluate-if c true e f = refl
evaluate-if c false e f = refl

-- Whether a name begins another one, in any case of letters.
abbrev pub begins : Bytes → Bytes → Bool
begins v name = equal_bytes (map to_lower (take (length v) name)) (map to_lower v)

same_start-begins : (v name : Bytes) → same_start (length v) name v ≡ begins v name
unfolding same_start
same_start-begins [] name = refl
same_start-begins (c ∷ v) [] = refl
same_start-begins (c ∷ v) (d ∷ name) = ground (arith, same_start-begins v name)

is_replaced-begins : (name v : Bytes) → is_replaced name v ≡ begins v name
unfolding is_replaced
is_replaced-begins name v = same_start-begins v name

-- After `Replace` an expression evaluates as before it with other values of its variables: a variable
-- whose own name, in any case of letters, begins the given name has the value of the expression that
-- is put in, and every other variable the value that it has in the context.
pub evaluate-replace :
    (c : Context) (name : Bytes) (exp e : BooleanExp)
    → evaluate c (replace name exp e)
      ≡ meaning (λ v. if begins v name then evaluate c exp else lookup c v) e
unfolding evaluate replace meaning
evaluate-replace c name exp (variable_exp v) =
    evaluate-if c (is_replaced name v) (copy exp) (variable_exp v)
    ∙ ap (λ e. if is_replaced name v then evaluate c e else lookup c v) (copy-same exp)
    ∙ ap (λ b. if b then evaluate c exp else lookup c v) (is_replaced-begins name v)
evaluate-replace c name exp (and_exp e f) =
    ap₂ and_then (evaluate-replace c name exp e) (evaluate-replace c name exp f)
evaluate-replace c name exp (or_exp e f) =
    ap₂ or_else (evaluate-replace c name exp e) (evaluate-replace c name exp f)
evaluate-replace c name exp (not_exp e) = ap negated (evaluate-replace c name exp e)
evaluate-replace c name exp (const_exp b) = refl

-- What holds of every variable of an expression.
abbrev pub AllVariables : (Bytes → Type 0) → BooleanExp → Type 0
AllVariables P (variable_exp name) = P name
AllVariables P (and_exp e f) = AllVariables P e × AllVariables P f
AllVariables P (or_exp e f) = AllVariables P e × AllVariables P f
AllVariables P (not_exp e) = AllVariables P e
AllVariables P (const_exp b) = Unit

-- The meaning depends on the values of the variables that occur.
pub meaning-agree :
    (f g : Bytes → Option Bool) (e : BooleanExp)
    → AllVariables (λ v. f v ≡ g v) e
    → meaning f e ≡ meaning g e
unfolding meaning
meaning-agree f g (variable_exp name) h = h
meaning-agree f g (and_exp d e) h = ap₂ and_then (meaning-agree f g d h.0) (meaning-agree f g e h.1)
meaning-agree f g (or_exp d e) h = ap₂ or_else (meaning-agree f g d h.0) (meaning-agree f g e h.1)
meaning-agree f g (not_exp e) h = ap negated (meaning-agree f g e h)
meaning-agree f g (const_exp b) h = refl

both : (a b : Bool) → and_then (some a) (some b) ≡ some (a && b)
both true b = refl
both false b = refl

either : (a b : Bool) → or_else (some a) (some b) ≡ some (a || b)
either true b = refl
either false b = refl

if_twice {ℓ} :
    {A : Type ℓ} (b : Bool) (x y z : A)
    → (if b then x else z) ≡ (if b then x else if b then y else z)
if_twice true x y z = refl
if_twice false x y z = refl

lookup_pair :
    (c : Context) (name key : Bytes) (value old : Bool) (k : Bytes)
    → lookup (assign name value (pair k old c)) key ≡ at key (assign name value (pair k old c))
unfolding assign
lookup_pair c name key value old k = elim (Bool-cases (equal_bytes name k)) [
  | inl e ↦ rw e (unfold lookup in refl)
  | inr e ↦ rw e (unfold lookup in refl)
]

lookup_at :
    (c : Context) (name key : Bytes) (value : Bool)
    → lookup (assign name value c) key ≡ at key (assign name value c)
lookup_at empty name key value = unfold lookup assign in refl
lookup_at (pair k old c) name key value = lookup_pair c name key value old k

different :
    (key name k : Bytes)
    → equal_bytes name k ≡ false
    → equal_bytes key k ≡ true
    → equal_bytes key name ≡ false
different key name k h same = elim (Bool-cases (equal_bytes key name)) [
  | inl e ↦
      let apart : true ≡ false =
        sym (equal_bytes_refl k)
        ∙ ap (λ t. equal_bytes t k) (sym (equal_bytes_eq key k same) ∙ equal_bytes_eq key name e)
        ∙ h in
      absurd (cc apart)
  | inr e ↦ e
]

at-assign :
    (c : Context) (name key : Bytes) (value : Bool)
    → at key (assign name value c) ≡ (if equal_bytes key name then some value else at key c)
unfolding at assign
at-assign empty name key value = refl
at-assign (pair k old c) name key value = elim (Bool-cases (equal_bytes name k)) [
  | inl e ↦
      rw (e, equal_bytes_eq name k e)
        (if_twice (equal_bytes key k) (some value) (some old) (at key c))
  | inr e ↦ elim (Bool-cases (equal_bytes key k)) [
    | inl same ↦ rw (e, different key name k e same, same)
    | inr other ↦ rw (e, other) (at-assign c name key value)
  ]
]

-- After `Assign` the name has the value, and every other name what `keyPair_` had for it: an exception
-- if there was nothing, also if the context was empty and `Lookup` gave false.
lookup-assign :
    (c : Context) (name key : Bytes) (value : Bool)
    → lookup (assign name value c) key ≡ (if equal_bytes key name then some value else at key c)
unfolding lookup
lookup-assign c name key value = lookup_at c name key value ∙ at-assign c name key value

-- Whether a variable is replaced, if only the variable of just this name is.
abbrev pub IsExact : Bytes → Bytes → Type 0
IsExact name v = begins v name ≡ equal_bytes v name

substituted :
    (k : Bytes) (old : Bool) (c : Context) (name v : Bytes) (exp : BooleanExp) (b : Bool)
    → evaluate (pair k old c) exp ≡ some b
    → IsExact name v
    → (if begins v name then evaluate (pair k old c) exp else lookup (pair k old c) v)
      ≡ lookup (assign name b (pair k old c)) v
unfolding lookup at
substituted k old c name v exp b value exact =
    rw (exact, value) (sym (lookup-assign (pair k old c) name v b))

AllVariables-map :
    (P Q : Bytes → Type 0)
    → ((v : Bytes) → P v → Q v)
    → (e : BooleanExp) → AllVariables P e
    → AllVariables Q e
AllVariables-map P Q f (variable_exp v) h = f v h
AllVariables-map P Q f (and_exp d e) h =
    (AllVariables-map P Q f d h.0, AllVariables-map P Q f e h.1)
AllVariables-map P Q f (or_exp d e) h = (AllVariables-map P Q f d h.0, AllVariables-map P Q f e h.1)
AllVariables-map P Q f (not_exp e) h = AllVariables-map P Q f e h
AllVariables-map P Q f (const_exp b) h = tt

-- In a context that is not empty: to replace a name and evaluate is to assign to it the value of the
-- expression that is put in, and evaluate, if `Replace` takes just the variable of that name among
-- those that occur.
evaluate-replace-assign :
    (k : Bytes) (old : Bool) (c : Context) (name : Bytes) (exp e : BooleanExp) (b : Bool)
    → evaluate (pair k old c) exp ≡ some b
    → AllVariables (IsExact name) e
    → evaluate (pair k old c) (replace name exp e) ≡ evaluate (assign name b (pair k old c)) e
evaluate-replace-assign k old c name exp e b value exact =
    evaluate-replace (pair k old c) name exp e
    ∙ meaning-agree
        (λ v. if begins v name then evaluate (pair k old c) exp else lookup (pair k old c) v)
        (lookup (assign name b (pair k old c))) e
        (AllVariables-map (IsExact name) _ (λ v h. substituted k old c name v exp b value h) e
          exact)
    ∙ sym (evaluate-meaning (assign name b (pair k old c)) e)

-- An expression all of whose variables have a value evaluates without an exception.
evaluate-bound :
    (c : Context) (e : BooleanExp)
    → AllVariables (λ v. (b : Bool) × (lookup c v ≡ some b)) e
    → (b : Bool) × (evaluate c e ≡ some b)
unfolding evaluate
evaluate-bound c (variable_exp v) h = h
evaluate-bound c (and_exp d e) h =
    let (a, ha) = evaluate-bound c d h.0 in
    let (b, hb) = evaluate-bound c e h.1 in (a && b, ap₂ and_then ha hb ∙ both a b)
evaluate-bound c (or_exp d e) h =
    let (a, ha) = evaluate-bound c d h.0 in
    let (b, hb) = evaluate-bound c e h.1 in (a || b, ap₂ or_else ha hb ∙ either a b)
evaluate-bound c (not_exp e) h = let (a, ha) = evaluate-bound c e h in (not a, ap negated ha)
evaluate-bound c (const_exp b) h = (b, refl)
