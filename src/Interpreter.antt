-- ===== src/Interpreter.antt =====
-- The interpreter of Boolean expressions: BooleanExp.h, VariableExp, Context and the four classes of
-- Interpreter_Pattern.cpp.
pub mod Meaning
mod Witnesses
use personal_project.Common.{
  ℕ, zero, suc, ◌+◌, ◌≡◌, Bool, true, false, not, ◌&&◌, Option, none, some, List, [], ◌∷◌, leb,
  ◌==◌, if◌then◌else◌, length, equal_bytes,
}
use personal_project.Decimal.{Bytes, to_lower}

-- An object of a class that is derived from `BooleanExp`, with the objects that it points to.
pub data BooleanExp : Type 0 where
  variable_exp : Bytes → BooleanExp
  and_exp : BooleanExp → BooleanExp → BooleanExp
  or_exp : BooleanExp → BooleanExp → BooleanExp
  not_exp : BooleanExp → BooleanExp
  const_exp : Bool → BooleanExp

-- `keyPair_`: each name once, with its value.
pub data Context : Type 0 where
  empty : Context
  pair : Bytes → Bool → Context → Context

-- `keyPair_.at`, which throws where there is no such name.
unfoldable pub at : Bytes → Context → Option Bool
at name empty = none
at name (pair key value c) = if equal_bytes name key then some value else at name c

-- `Lookup`; `none` is the exception.
unfoldable pub lookup : Context → Bytes → Option Bool
lookup empty name = some false
lookup (pair key value c) name = at name (pair key value c)

unfoldable pub assign : Bytes → Bool → Context → Context
assign name value empty = pair name value empty
assign name value (pair key old c) =
    if equal_bytes name key then pair key value c else pair key old (assign name value c)

-- `0 == strncasecmp(a, b, n)`
unfoldable pub same_start : ℕ → Bytes → Bytes → Bool
same_start zero a b = true
same_start (suc n) [] [] = true
same_start (suc n) [] (d ∷ b) = false
same_start (suc n) (c ∷ a) [] = false
same_start (suc n) (c ∷ a) (d ∷ b) = if to_lower c == to_lower d then same_start n a b else false

-- The test of `VariableExp::Replace`.
unfoldable pub is_replaced : Bytes → Bytes → Bool
is_replaced name name_ = same_start (length name_) name name_

-- `&&` and `||` evaluate the second operand only if it is needed.
abbrev pub and_then : Option Bool → Option Bool → Option Bool
and_then none later = none
and_then (some false) later = some false
and_then (some true) later = later

abbrev pub or_else : Option Bool → Option Bool → Option Bool
or_else none later = none
or_else (some true) later = some true
or_else (some false) later = later

abbrev pub negated : Option Bool → Option Bool
negated none = none
negated (some b) = some (not b)

-- The functions of `VariableExp`.
abbrev pub variable_evaluate : Bytes → Context → Option Bool
variable_evaluate name_ c = lookup c name_

unfoldable pub evaluate : Context → BooleanExp → Option Bool
evaluate c (variable_exp name) = variable_evaluate name c
evaluate c (and_exp e f) = and_then (evaluate c e) (evaluate c f)
evaluate c (or_exp e f) = or_else (evaluate c e) (evaluate c f)
evaluate c (not_exp e) = negated (evaluate c e)
evaluate c (const_exp b) = some b

unfoldable pub copy : BooleanExp → BooleanExp
copy (variable_exp name) = variable_exp name
copy (and_exp e f) = and_exp (copy e) (copy f)
copy (or_exp e f) = or_exp (copy e) (copy f)
copy (not_exp e) = not_exp (copy e)
copy (const_exp b) = const_exp b

unfoldable pub variable_replace : Bytes → Bytes → BooleanExp → BooleanExp
variable_replace name_ name exp = if is_replaced name name_ then copy exp else variable_exp name_

unfoldable pub replace : Bytes → BooleanExp → BooleanExp → BooleanExp
unfolding variable_replace
replace name exp (variable_exp name_) = variable_replace name_ name exp
replace name exp (and_exp e f) = and_exp (replace name exp e) (replace name exp f)
replace name exp (or_exp e f) = or_exp (replace name exp e) (replace name exp f)
replace name exp (not_exp e) = not_exp (replace name exp e)
replace name exp (const_exp b) = const_exp b
