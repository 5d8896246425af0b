-- ===== src/Mediator/Clicks.antt =====
-- The clicks on the list of fonts.
use personal_project.Common.{
  ℕ, zero, suc, ◌+◌, ◌%◌, ◌<◌, ◌≡◌, refl, ap, sym, ◌∙◌, false, Option, none, some, List, [], ◌∷◌,
  ◌++◌, append-nil, append_assoc, arith, eq→==, get_elem?, get_elem?-set, get_elem?-below, set,
  length,
}
use mathlib.Core.Path.{subst}
use native.Mathlib.Nat
use personal_project.Decimal.{Bytes}
use personal_project.Mediator.{
  list_box, Line, font_list, selected_font, Dialog, points_to, print, widget_changed, clicked,
  handle_mouse,
}

-- So many clicks on a widget in a row.
unfoldable pub clicks : ℕ → ℕ → Dialog → Option Dialog
clicks zero w d = some d
clicks (suc k) w d = elim (handle_mouse w d) [ none ↦ none | some v ↦ clicks k w v ]

abbrev pub lines_for : Option Bytes → List Line
lines_for none = []
lines_for (some text) = font_list ∷ selected_font text ∷ []

-- The items that are selected one after the other behind the current one, from the first again after the last.
abbrev pub selections : List Bytes → ℕ → ℕ → List Line
selections items current zero = []
selections items current (suc k) =
    lines_for (get_elem? items ((current + 1) % length items))
    ++ selections items ((current + 1) % length items) k

module _ (w : ℕ) (x : Bytes) (xs : List Bytes) where
  -- The list of fonts, and none of the buttons, stands at the place.
  abbrev pub IsFontList : ℕ → Dialog → Type 0
  IsFontList current d =
      (points_to d.ok w ≡ false)
      × (points_to d.cancel w ≡ false)
      × (d.fonts ≡ some w)
      × (get_elem? d.widgets w ≡ some (list_box current (x ∷ xs)))

  module _ (current : ℕ) (d : Dialog) (fonts : IsFontList current d) where
    moved : Dialog
    moved = record d {
      widgets = set d.widgets w (list_box ((current + 1) % suc (length xs)) (x ∷ xs));
    }

    moved-IsFontList : IsFontList ((current + 1) % suc (length xs)) moved
    unfolding moved
    moved-IsFontList = (
      fonts.0,
      fonts.1,
      fonts.2,
      get_elem?-set d.widgets w w (list_box current (x ∷ xs)) _ fonts.3 ∙ rw (eq→== w w refl),
    )

    handle_mouse-changed : handle_mouse w d ≡ widget_changed w moved
    unfolding handle_mouse clicked moved
    handle_mouse-changed = rw (handle_mouse, fonts.3)

    widget_changed-fonts :
        (text : Bytes)
        → get_elem? (x ∷ xs) ((current + 1) % suc (length xs)) ≡ some text
        → widget_changed w moved ≡ some (print (font_list ∷ selected_font text ∷ []) moved)
    unfolding widget_changed
    widget_changed-fonts text e =
        ground
          (arith, moved-IsFontList.0, moved-IsFontList.1, moved-IsFontList.2, moved-IsFontList.3, e)

  -- If the list of fonts stands at the place and has a current item: any number of clicks on it ends, moves its
  -- current item on by as many places, from the first again after the last, and prints each item that it comes to;
  -- the list keeps its items and the director its pointers to it.
  pub clicks-selections :
      (k current : ℕ) (d : Dialog)
      → IsFontList current d
      → current < suc (length xs)
      → (v : Dialog) × (clicks k w d ≡ some v)
        × IsFontList ((current + k) % suc (length xs)) v
        × (v.output ≡ d.output ++ selections (x ∷ xs) current k)
  unfolding clicks moved
  clicks-selections zero current d fonts lt = (
    d,
    refl,
    subst (λ (n : ℕ). IsFontList n d)
        (sym (ap (λ n. n % suc (length xs)) (Nat.add-zero current) ∙ Nat.mod-eq_of_lt lt)) fonts,
    sym (append-nil d.output),
  )
  clicks-selections (suc k) current d fonts lt =
      let next : ℕ = (current + 1) % suc (length xs) in
      let inside : next < suc (length xs) = Nat.mod-lt (current + 1) (omega arith) in
      let (text, e) = get_elem?-below (x ∷ xs) next inside in
      let (v, ended, still, printed) =
        clicks-selections k next
          (print (font_list ∷ selected_font text ∷ []) (moved current d fonts))
          (moved-IsFontList current d fonts) inside in
      (
        v,
        rw
            (
              clicks,
              handle_mouse-changed current d fonts ∙ widget_changed-fonts current d fonts text e,
            )
            ended,
        subst (λ (n : ℕ). IsFontList n v)
            (Nat.mod-add-mod (current + 1) (suc (length xs)) k
              ∙ ap (λ n. n % suc (length xs)) (omega arith))
            still,
        printed
            ∙ append_assoc d.output (lines_for (some text)) (selections (x ∷ xs) next k)
            ∙ ap (λ o. d.output ++ (lines_for o ++ selections (x ∷ xs) next k)) (sym e),
      )
