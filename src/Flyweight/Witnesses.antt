-- ===== src/Flyweight/Witnesses.antt =====
-- Characters and fonts as in the test.
use personal_project.Common.{ℕ, ◌≡◌, refl, none, some, [], ◌∷◌, arith}
use mathlib.Core.Logic.{◌↔◌}
use personal_project.Decimal.{Bytes, pos, negsuc}
use personal_project.Flyweight.{
  Font, GlyphContext, new_factory, create_character, create_all, next, set_font, draw,
}
use personal_project.Flyweight.Fonts.{run, step, set_one, new_context, run-draws}
use personal_project.Flyweight.Shared.{create_character-shared}

-- 'a', then 'w' and a char that is negative, then 'a' again.
create_character-shared_example :
    (p q : ℕ) × ((create_character (pos b'a') (create_all [] new_factory)).0 ≡ some p)
    × ((create_character (pos b'a') (
          create_all
            (pos b'w' ∷ negsuc 10 ∷ [])
            (create_character (pos b'a') (create_all [] new_factory)).1)).0
        ≡ some q)
    × (p ≡ q ↔ ◌≡◌ {A = ℕ} b'a' b'a')
create_character-shared_example =
    create_character-shared [] (pos b'w' ∷ negsuc 10 ∷ []) b'a' b'a' (omega arith) (omega arith)

no_character : (create_character (pos 200) new_factory).0 ≡ none
unfolding create_character
no_character = refl

abbrev times : Font
times = record { address = 20; font_name = b't' ∷ [] }

abbrev italic : Font
italic = record { address = 10; font_name = b'i' ∷ [] }

-- The second font of the test stands before the first if its address is lower.
drawn : draw b'a' (set_font italic (set_font times new_context)) ≡ some (b'a', b'i' ∷ [])
unfolding draw set_font
drawn = refl

abbrev courier : Font
courier = record { address = 30; font_name = b'c' ∷ [] }

-- A step back from the first of three fonts wraps around 2^32, which three divides with a remainder of 1.
step_back :
    next (negsuc 0) (record { index = 0; fonts = italic ∷ times ∷ courier ∷ [] })
    ≡ some (record { index = 0; fonts = italic ∷ times ∷ courier ∷ [] })
unfolding next
step_back = refl

run-draws_example :
    (c : GlyphContext) × (name : Bytes) × (run
        (set_one italic ∷ step (pos 1) ∷ [])
        (set_font times new_context)
      ≡ some c)
    × (draw b'a' c ≡ some (b'a', name))
run-draws_example = run-draws times (set_one italic ∷ step (pos 1) ∷ []) b'a'
