-- ===== src/Chain/Witnesses.antt =====
-- The buttons, dialogs and applications of the test.
use personal_project.Common.{◌≡◌, refl, none, some, List, [], ◌∷◌, arith}
use personal_project.Decimal.{pos}
use personal_project.Chain.{
  forward, button, dialog, application, Handler, handle_help, new_handler, no_help_topic, help_from,
  no_help,
}
use personal_project.Chain.Asked.{Chained, first_answer, handle_help-answers}

-- An application, a dialog that it stands behind, and a button without a topic.
abbrev made : List Handler
made =
    record { class = application; successor = none; topic = pos 3 }
    ∷ record { class = dialog; successor = some 0; topic = pos 1 }
    ∷ record { class = button; successor = some 1; topic = no_help_topic }
    ∷ []

handle_help-answers_example :
    (hs : List Handler) × Chained made 2 hs × (handle_help 3 made 2 ≡ some (first_answer hs))
handle_help-answers_example =
    handle_help-answers made (tt, (omega arith, (omega arith, tt))) 2 (omega arith)

asked_dialog : handle_help 3 made 2 ≡ some (help_from dialog ∷ [])
unfolding handle_help
asked_dialog = refl

constructed :
    new_handler button
      (some 1)
      no_help_topic
      (new_handler dialog (some 0) (pos 1) (new_handler application none (pos 3) []))
    ≡ made
unfolding new_handler
constructed = refl

-- A dialog whose handler is a null pointer.
asked_nobody : handle_help 1 (new_handler dialog none no_help_topic []) 0 ≡ some (no_help ∷ [])
unfolding handle_help new_handler forward
asked_nobody = refl
