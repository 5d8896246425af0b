-- ===== src/Flyweight/Fonts.antt =====
-- The context has a font to draw with once one was set.
use personal_project.Common.{
  ℕ, suc, ◌+◌, ◌%◌, ◌^◌, ◌<◌, ◌≤◌, ◌≡◌, refl, ap, Option, none, some, List, [], ◌∷◌, arith,
  get_elem?-below, length,
}
use native.Mathlib.Nat
use personal_project.Decimal.{Bytes, ℤ}
use personal_project.Integers.{to_unsigned}
use personal_project.Flyweight.{Font, GlyphContext, insert_font, next, set_font, insert, draw}

-- What is done with the context.
pub data Change : Type 0 where
  step : ℤ → Change
  set_one : Font → Change
  insert_at : List ℕ → Change

unfoldable pub changed : Change → GlyphContext → Option GlyphContext
changed (step n) c = next n c
changed (set_one f) c = some (set_font f c)
changed (insert_at ats) c = some (insert ats c)

unfoldable pub run : List Change → GlyphContext → Option GlyphContext
run [] c = some c
run (x ∷ xs) c = elim (changed x c) [ none ↦ none | some d ↦ run xs d ]

length-insert_font :
    (f : Font) (gs : List Font)
    → (0 < length (insert_font f gs)) × (length gs ≤ length (insert_font f gs))
unfolding insert_font
length-insert_font f [] = omega arith
length-insert_font f (g ∷ gs) = ground (arith, length-insert_font f gs)

abbrev InRange : GlyphContext → Type 0
InRange c = c.index < length c.fonts

set_font-InRange : (f : Font) (c : GlyphContext) → InRange c → InRange (set_font f c)
unfolding set_font
set_font-InRange f c h = omega (arith, length-insert_font f c.fonts)

insert-InRange : (ats : List ℕ) (c : GlyphContext) → InRange c → InRange (insert ats c)
unfolding insert
insert-InRange [] c h = h
insert-InRange (at ∷ ats) c h = insert-InRange ats _ (set_font-InRange _ c h)

next-InRange :
    (n : ℤ) (c : GlyphContext) → InRange c → (d : GlyphContext) × (next n c ≡ some d) × InRange d
unfolding next
next-InRange n c h = go c.fonts refl
  where
    go : (fs : List Font) → c.fonts ≡ fs → (d : GlyphContext) × (next n c ≡ some d) × InRange d
    go [] e = absurd (omega (arith, h, ap length e))
    go (f ∷ fs) e = (
      record { index = (c.index + to_unsigned n) % 2 ^ 32 % suc (length fs); fonts = f ∷ fs },
      rw (next, e)
          (ap
            (λ l.
              some (record {
                index = (c.index + to_unsigned n) % 2 ^ 32 % suc (length fs);
                fonts = l;
              }))
            e),
      Nat.mod-lt _ (omega arith),
    )

changed-InRange :
    (x : Change) (c : GlyphContext)
    → InRange c
    → (d : GlyphContext) × (changed x c ≡ some d) × InRange d
unfolding changed
changed-InRange (step n) c h = next-InRange n c h
changed-InRange (set_one f) c h = (set_font f c, refl, set_font-InRange f c h)
changed-InRange (insert_at ats) c h = (insert ats c, refl, insert-InRange ats c h)

run-InRange :
    (xs : List Change) (c : GlyphContext)
    → InRange c
    → (d : GlyphContext) × (run xs c ≡ some d) × InRange d
unfolding run
run-InRange [] c h = (c, refl, h)
run-InRange (x ∷ xs) c h =
    let (d, one, inside) = changed-InRange x c h in
    let (e, all, inside') = run-InRange xs d inside in (e, rw (run, one) all, inside')

abbrev pub new_context : GlyphContext
new_context = record { index = 0; fonts = [] }

-- Once a font was set in a new context, whatever is done with it: Next always has a number of fonts to divide by, and
-- Draw finds a font.
pub run-draws :
    (f : Font) (xs : List Change) (char : ℕ)
    → (c : GlyphContext) × (name : Bytes) × (run xs (set_font f new_context) ≡ some c)
      × (draw char c ≡ some (char, name))
unfolding draw
run-draws f xs char =
    let (c, ended, inside) =
      run-InRange xs (set_font f new_context) (unfold set_font in (length-insert_font f []).0) in
    let (g, there) = get_elem?-below c.fonts c.index inside in
    (c, g.font_name, ended, rw (draw, there))
