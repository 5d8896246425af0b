-- ===== src/Chain.antt =====
-- chain_of_responsability_pattern.cpp: buttons, dialogs and applications that hand a request for help on.
pub mod Asked
mod Witnesses
use personal_project.Common.{
  ℕ, zero, suc, Bool, true, false, not, Option, none, some, List, [], ◌∷◌, ◌++◌, if◌then◌else◌,
  get_elem?, set, length,
}
use personal_project.Decimal.{ℤ, pos, negsuc}
use personal_project.Integers.{equal_ℤ}

pub data Class : Type 0 where
  button dialog application : Class

-- A handler on the heap; `successor` is the place of another one, or a null pointer.
pub record Handler : Type 0 where
  pub class : Class
  pub successor : Option ℕ
  pub topic : ℤ

abbrev pub no_help_topic : ℤ
no_help_topic = negsuc 0

-- What is printed; the last one where the end of the chain is no application.
pub data Help : Type 0 where
  help_from : Class → Help
  no_help : Help

abbrev pub has_help : Handler → Bool
has_help h = not (equal_ℤ no_help_topic h.topic)

-- What an object without help does: the application says nothing, the others use the function of `HelpHandler`.
pub data Forward : Type 0 where
  says : List Help → Forward
  asks : ℕ → Forward

forward : Class → Option ℕ → Forward
forward application successor = says []
forward _ none = says (no_help ∷ [])
forward _ (some k) = asks k

answer : Handler → Forward
unfolding forward
answer h = if has_help h then says (help_from h.class ∷ []) else forward h.class h.successor

-- `HandleHelp` of the object at a place, with fuel for the objects that are asked; `none` also where the pointer
-- leads to no object.
unfoldable pub handle_help : ℕ → List Handler → ℕ → Option (List Help)
unfolding answer
handle_help zero heap k = none
handle_help (suc fuel) heap k = elim (get_elem? heap k) [
  | none ↦ none
  | some h ↦ elim (answer h) [ says lines ↦ some lines | asks next ↦ handle_help fuel heap next ]
]

-- `new Button(…)` and `new Dialog(…)`, which takes its handler by `SetHandler`, and `new Application(…)`.
pub new_handler : Class → Option ℕ → ℤ → List Handler → List Handler
new_handler c successor topic heap =
    heap ++ record { class = c; successor = successor; topic = topic } ∷ []

-- `SetHandler` of the object at a place.
unfoldable pub set_handler : ℕ → Option ℕ → ℤ → List Handler → List Handler
set_handler k successor topic heap = elim (get_elem? heap k) [
  | none ↦ heap
  | some h ↦ set heap k (record h { successor = successor; topic = topic })
]
