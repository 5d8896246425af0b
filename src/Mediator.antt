-- ===== src/Mediator.antt =====
-- mediator.cpp: the widgets of a font dialog, and the director that they tell of their changes.
pub mod Clicks
mod Witnesses
use personal_project.Common.{
  ℕ, zero, suc, ◌+◌, ◌%◌, Bool, true, false, Option, none, some, List, [], ◌∷◌, ◌++◌, ◌==◌,
  if◌then◌else◌, get_elem?, set, length,
}
use personal_project.Decimal.{Bytes}

-- A widget on the heap; each has the same director. `none` for a text is a null pointer.
pub data Widget : Type 0 where
  list_box : ℕ → List Bytes → Widget
  entry_field : Option Bytes → Widget
  button : Option Bytes → Widget

-- What the director prints.
pub data Line : Type 0 where
  button_ok button_cancel font_list unknown_widget : Line
  selected_font font_name : Bytes → Line

-- The widgets that were made, the four pointers of the director, and what was printed.
pub record Dialog : Type 0 where
  pub widgets : List Widget
  pub ok : Option ℕ
  pub cancel : Option ℕ
  pub fonts : Option ℕ
  pub name : Option ℕ
  pub output : List Line

-- `FontDialogDirector()`
abbrev pub new_director : Dialog
new_director = record {
  widgets = [];
  ok = none;
  cancel = none;
  fonts = none;
  name = none;
  output = [];
}

abbrev pub points_to : Option ℕ → ℕ → Bool
points_to none w = false
points_to (some v) w = v == w

abbrev pub print : List Line → Dialog → Dialog
print lines d = record d { output = d.output ++ lines }

-- `GetSelection`; `none` where the index is behind the last item.
abbrev pub get_selection : Widget → Option Bytes
get_selection (list_box current []) = some []
get_selection (list_box current (x ∷ xs)) = get_elem? (x ∷ xs) current
get_selection _ = none

-- `GetText`, which is printed; `none` where it is a null pointer.
abbrev pub get_text : Widget → Option Bytes
get_text (entry_field text) = text
get_text _ = none

told : (Widget → Option Bytes) → (Bytes → List Line) → Option Widget → Dialog → Option Dialog
told read lines none d = none
told read lines (some w) d = elim (read w) [ none ↦ none | some text ↦ some (print (lines text) d) ]

-- `WidgetChanged` for the widget at a place; `none` where the code reads what is not there.
unfoldable pub widget_changed : ℕ → Dialog → Option Dialog
unfolding told
widget_changed w d =
    if points_to d.ok w
    then some (print (button_ok ∷ []) d)
    else if points_to d.cancel w
    then some (print (button_cancel ∷ []) d)
    else if points_to d.fonts w
    then told get_selection (λ text. font_list ∷ selected_font text ∷ []) (get_elem? d.widgets w) d
    else if points_to d.name w
    then told get_text (λ text. font_name text ∷ []) (get_elem? d.widgets w) d
    else some (print (unknown_widget ∷ []) d)

-- `HandleMouse` of a widget, before it tells the director; `none` where a list box has no item to divide by the
-- number of.
unfoldable pub clicked : Widget → Option Widget
clicked (list_box current []) = none
clicked (list_box current (x ∷ xs)) = some (list_box ((current + 1) % suc (length xs)) (x ∷ xs))
clicked (entry_field text) = some (entry_field text)
clicked (button text) = some (button text)

with_widget : ℕ → Option Widget → Dialog → Option Dialog
with_widget w none d = none
with_widget w (some v) d = some (record d { widgets = set d.widgets w v })

changed : ℕ → Option Dialog → Option Dialog
changed w none = none
changed w (some d) = widget_changed w d

-- `HandleMouse`
unfoldable pub handle_mouse : ℕ → Dialog → Option Dialog
unfolding with_widget changed
handle_mouse w d = elim (get_elem? d.widgets w) [
  | none ↦ none
  | some v ↦ changed w (with_widget w (clicked v) d)
]

-- `SetText` of a button tells the director, that of an entry field does not.
texted : ℕ → Bytes → Option Widget → Dialog → Option Dialog
unfolding changed with_widget
texted w text (some (button old)) d = changed w (with_widget w (some (button (some text))) d)
texted w text (some (entry_field old)) d = with_widget w (some (entry_field (some text))) d
texted w text _ d = none

unfoldable pub set_text : ℕ → Bytes → Dialog → Option Dialog
unfolding texted
set_text w text d = texted w text (get_elem? d.widgets w) d

-- `SetList` of a list box copies the items behind those that it has.
appended : List Bytes → Option Widget → Option Widget
appended more (some (list_box current items)) = some (list_box current (items ++ more))
appended more _ = none

unfoldable pub set_list : ℕ → List Bytes → Dialog → Option Dialog
unfolding with_widget appended
set_list w more d = with_widget w (appended more (get_elem? d.widgets w)) d

-- `"Times New Roman"`, `"Arial"` and `"Verdana"`
abbrev pub times_new_roman : Bytes
times_new_roman =
    b'T' ∷ b'i' ∷ b'm' ∷ b'e' ∷ b's' ∷ 32 ∷ b'N' ∷ b'e' ∷ b'w' ∷ 32 ∷ b'R' ∷ b'o' ∷ b'm' ∷ b'a'
    ∷ b'n' ∷ []

abbrev pub arial : Bytes
arial = b'A' ∷ b'r' ∷ b'i' ∷ b'a' ∷ b'l' ∷ []

abbrev pub verdana : Bytes
verdana = b'V' ∷ b'e' ∷ b'r' ∷ b'd' ∷ b'a' ∷ b'n' ∷ b'a' ∷ []

-- The four calls of `new`.
abbrev pub with_widgets : Dialog → Dialog
with_widgets d = record d {
  widgets = d.widgets ++ button none ∷ button none ∷ list_box 0 [] ∷ entry_field none ∷ [];
  ok = some (length d.widgets);
  cancel = some (length d.widgets + 1);
  fonts = some (length d.widgets + 2);
  name = some (length d.widgets + 3);
}

named : ℕ → Option Dialog → Option Dialog
named w none = none
named w (some d) = set_text w verdana d

-- `CreateWidgets`
unfoldable pub create_widgets : Dialog → Option Dialog
unfolding named set_list set_text
create_widgets d =
    named (length d.widgets + 3)
      (set_list (length d.widgets + 2) (times_new_roman ∷ arial ∷ verdana ∷ []) (with_widgets d))
