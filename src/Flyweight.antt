-- ===== src/Flyweight.antt =====
-- Flyweight_pattern.cpp: the factory that shares the characters, and the context with their fonts.
pub mod Shared
pub mod Fonts
mod Witnesses
use personal_project.Common.{
  ℕ, zero, suc, ◌+◌, ◌%◌, ◌^◌, Bool, true, false, Option, none, some, List, [], ◌∷◌, ◌++◌, ltb, leb,
  ◌==◌, if◌then◌else◌, get_elem?, set, length, replicate,
}
use personal_project.Decimal.{Bytes, ℤ, pos, negsuc}
use personal_project.Integers.{to_unsigned}

-- `chars_`, and the characters that were made, each with its code; a pointer is the place among these.
-- `deleted` has the pointers that were given to `delete`.
pub record GlyphFactory : Type 0 where
  pub chars : List (Option ℕ)
  pub made : List ℕ
  pub deleted : List ℕ

abbrev pub nb_char_codes : ℕ
nb_char_codes = 128

unfoldable pub new_factory : GlyphFactory
new_factory = record { chars = replicate nb_char_codes none; made = []; deleted = [] }

slot : ℕ → Option (Option ℕ) → GlyphFactory → Option ℕ × GlyphFactory
slot n none f = (none, f)
slot n (some (some p)) f = (some p, f)
slot n (some none) f = (
  some (length f.made),
  record f { chars = set f.chars n (some (length f.made)); made = f.made ++ n ∷ [] },
)

-- `CreateCharacter`; `none` is a null pointer.
unfoldable pub create_character : ℤ → GlyphFactory → Option ℕ × GlyphFactory
unfolding slot
create_character (negsuc n) f = (none, f)
create_character (pos n) f =
    if leb nb_char_codes n then (none, f) else slot n (get_elem? f.chars n) f

delete_chars : List (Option ℕ) → List ℕ
delete_chars [] = []
delete_chars (none ∷ cs) = delete_chars cs
delete_chars (some p ∷ cs) = p ∷ delete_chars cs

-- `~GlyphFactory`
unfoldable pub delete_factory : GlyphFactory → GlyphFactory
unfolding delete_chars
delete_factory f = record f { chars = []; deleted = f.deleted ++ delete_chars f.chars }

-- Requests in a row.
unfoldable pub create_all : List ℤ → GlyphFactory → GlyphFactory
create_all [] f = f
create_all (c ∷ cs) f = create_all cs (create_character c f).1

-- A font with its address, by which `std::set` orders the pointers.
pub record Font : Type 0 where
  pub address : ℕ
  pub font_name : Bytes

pub record GlyphContext : Type 0 where
  pub index : ℕ
  pub fonts : List Font

-- `std::set::insert`, which keeps a pointer once.
insert_font : Font → List Font → List Font
insert_font f [] = f ∷ []
insert_font f (g ∷ gs) =
    let rest = insert_font f gs in
    if ltb f.address g.address
    then f ∷ g ∷ gs
    else if f.address == g.address
    then g ∷ gs
    else g ∷ rest

-- `Next`; `none` where there is no font to divide by the number of.
unfoldable pub next : ℤ → GlyphContext → Option GlyphContext
next step c = elim c.fonts [
  | [] ↦ none
  | f ∷ fs ↦ some (record c { index = (c.index + to_unsigned step) % 2 ^ 32 % suc (length fs) })
]

-- `SetFont`, whose second argument is not used.
unfoldable pub set_font : Font → GlyphContext → GlyphContext
unfolding insert_font
set_font f c = record c { fonts = insert_font f c.fonts }

-- `"empty"`
abbrev empty_name : Bytes
empty_name = b'e' ∷ b'm' ∷ b'p' ∷ b't' ∷ b'y' ∷ []

-- `Insert` of as many fonts as there are addresses, at which `new` makes them.
unfoldable pub insert : List ℕ → GlyphContext → GlyphContext
unfolding set_font
insert [] c = c
insert (at ∷ ats) c = insert ats (set_font (record { address = at; font_name = empty_name }) c)

-- `GetFont`; `none` is a null pointer.
unfoldable pub get_font : GlyphContext → Option Font
get_font c = get_elem? c.fonts c.index

-- `Draw`: the character and the name of its font; `none` where the font is a null pointer.
unfoldable pub draw : ℕ → GlyphContext → Option (ℕ × Bytes)
unfolding get_font
draw char c = elim (get_font c) [ none ↦ none | some f ↦ some (char, f.font_name) ]
