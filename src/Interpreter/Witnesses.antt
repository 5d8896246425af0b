-- ===== src/Interpreter/Witnesses.antt =====
-- Runs of the interpreter, and its theorems at concrete expressions.
use personal_project.Common.{◌≡◌, refl, true, false, none, some, [], ◌∷◌, if◌then◌else◌}
use personal_project.Decimal.{Bytes}
use personal_project.Interpreter.{
  BooleanExp, variable_exp, and_exp, or_exp, not_exp, const_exp, Context, empty, pair, at, lookup,
  assign, same_start, is_replaced, evaluate, copy, replace,
}
use personal_project.Interpreter.Meaning.{begins, meaning, AllVariables, IsExact, evaluate-replace}

abbrev x : Bytes
x = b'X' ∷ []

abbrev y : Bytes
y = b'Y' ∷ []

abbrev xy : Bytes
xy = b'X' ∷ b'Y' ∷ []

abbrev values : Context
values = pair y true empty

-- (true and x) or (y and (not x))
abbrev expression : BooleanExp
expression =
    or_exp (and_exp (const_exp true) (variable_exp x))
      (and_exp (variable_exp y) (not_exp (variable_exp x)))

example_run : evaluate (assign y true (assign x false empty)) expression ≡ some true
unfolding evaluate assign lookup at
example_run = refl

-- `Replace` of "XY" takes the variable "X", whose name begins it.
prefix_replaced : replace xy (const_exp true) (variable_exp x) ≡ const_exp true
unfolding replace is_replaced same_start copy
prefix_replaced = refl

-- A name that is missing is false in an empty context, and an exception in another one.
missing : (lookup empty x ≡ some false) × (lookup values x ≡ none)
unfolding lookup at
missing = (refl, refl)

evaluate-replace_example :
    evaluate values (replace xy (const_exp true) expression)
    ≡ meaning
        (λ v. if begins v xy then evaluate values (const_exp true) else lookup values v)
        expression
evaluate-replace_example = evaluate-replace values xy (const_exp true) expression

exact : AllVariables (IsExact x) expression
unfolding is_replaced same_start
exact = ((tt, refl), (refl, refl))

const_value : evaluate values (const_exp false) ≡ some false
unfolding evaluate
const_value = refl
