-- ===== src/Mediator/Witnesses.antt =====
-- The dialog of the test.
use personal_project.Common.{◌≡◌, refl, some, none, [], ◌∷◌, arith}
use personal_project.Mediator.{
  Dialog, button, list_box, entry_field, new_director, create_widgets, widget_changed, clicked,
  handle_mouse, set_text, times_new_roman, arial, verdana, button_ok,
}
use personal_project.Mediator.Clicks.{clicks, selections, IsFontList, clicks-selections}

abbrev created : Dialog
created = record {
  widgets =
      button none
      ∷ button none
      ∷ list_box 0 (times_new_roman ∷ arial ∷ verdana ∷ [])
      ∷ entry_field (some verdana)
      ∷ [];
  ok = some 0;
  cancel = some 1;
  fonts = some 2;
  name = some 3;
  output = [];
}

create_widgets-created : create_widgets new_director ≡ some created
unfolding create_widgets
create_widgets-created = refl

-- Four clicks on the list of three fonts.
clicks-selections_example :
    (v : Dialog) × (clicks 4 2 created ≡ some v)
    × IsFontList 2 times_new_roman (arial ∷ verdana ∷ []) 1 v
    × (v.output ≡ selections (times_new_roman ∷ arial ∷ verdana ∷ []) 0 4)
clicks-selections_example =
    clicks-selections 2 times_new_roman (arial ∷ verdana ∷ []) 4 0 created (refl, refl, refl, refl)
      (omega arith)

-- What the test does: a text for a button, and a click on the list and on the name of the font.
set_text-told :
    set_text 0 arial created
    ≡ some (record created {
      widgets =
          button (some arial)
          ∷ button none
          ∷ list_box 0 (times_new_roman ∷ arial ∷ verdana ∷ [])
          ∷ entry_field (some verdana)
          ∷ [];
      output = button_ok ∷ [];
    })
unfolding set_text widget_changed
set_text-told = refl

-- A list box without items divides by 0.
empty_clicked : handle_mouse 0 (record new_director { widgets = list_box 0 [] ∷ [] }) ≡ none
unfolding handle_mouse clicked
empty_clicked = refl
