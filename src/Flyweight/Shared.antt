-- ===== src/Flyweight/Shared.antt =====
-- Equal codes have one character, and others have their own.
use personal_project.Common.{
  ℕ, zero, suc, ◌<◌, ◌≡◌, refl, ap, sym, ◌∙◌, inl, inr, Bool-cases, Option, none, some, List, [],
  ◌∷◌, ◌++◌, arith, leb, get_elem?, get_elem?-set, get_elem?-below, length-set,
  get_elem?-append_one, get_elem?-length, set, length, replicate,
}
use mathlib.Core.Logic.{◌↔◌}
use mathlib.Core.Path.{subst}
use mathlib.Core.Option.{some-injective}
use personal_project.Decimal.{ℤ, pos, negsuc}
use personal_project.Flyweight.{
  GlyphFactory, nb_char_codes, new_factory, slot, create_character, create_all,
}

-- The table and the characters that were made belong to each other.
pub record IsShared (f : GlyphFactory) : Type 0 where
  pub all_codes : length f.chars ≡ nb_char_codes
  pub holds : (n p : ℕ) → get_elem? f.chars n ≡ some (some p) → get_elem? f.made p ≡ some n
  pub found : (p n : ℕ) → get_elem? f.made p ≡ some n → get_elem? f.chars n ≡ some (some p)

abbrev filled : ℕ → GlyphFactory → GlyphFactory
filled n f = record f { chars = set f.chars n (some (length f.made)); made = f.made ++ n ∷ [] }

module _ (f : GlyphFactory) (ok : IsShared f) (n : ℕ) (free : get_elem? f.chars n ≡ some none) where
  filled-holds :
      (i p : ℕ)
      → get_elem? (filled n f).chars i ≡ some (some p)
      → get_elem? (filled n f).made p ≡ some i
  filled-holds i p e = ground (
    arith,
    e,
    get_elem?-set f.chars n i none (some (length f.made)) free,
    get_elem?-append_one f.made n p,
    ok.holds i p,
    get_elem?-length f.made,
  )

  filled-found :
      (p i : ℕ)
      → get_elem? (filled n f).made p ≡ some i
      → get_elem? (filled n f).chars i ≡ some (some p)
  filled-found p i e = ground (
    arith,
    e,
    free,
    get_elem?-set f.chars n i none (some (length f.made)) free,
    get_elem?-append_one f.made n p,
    ok.found p i,
  )

  filled-IsShared : IsShared (filled n f)
  filled-IsShared = record {
    all_codes = length-set f.chars n (some (length f.made)) ∙ ok.all_codes;
    holds = filled-holds;
    found = filled-found;
  }

-- What CreateCharacter gives for a code below 128: an object with this code, and all that were made before keep
-- theirs.
abbrev pub Gives : ℕ → GlyphFactory → Option ℕ × GlyphFactory → Type 0
Gives n f r =
    (p : ℕ) × (r.0 ≡ some p)
    × (get_elem? r.1.made p ≡ some n)
    × IsShared r.1
    × ((q m : ℕ) → get_elem? f.made q ≡ some m → get_elem? r.1.made q ≡ some m)

slot-Gives :
    (f : GlyphFactory) (n : ℕ) (o : Option (Option ℕ))
    → IsShared f
    → n < nb_char_codes
    → get_elem? f.chars n ≡ o
    → Gives n f (slot n o f)
unfolding slot
slot-Gives f n none ok lt e =
    let (o, there) = get_elem?-below f.chars n (omega (arith, ok.all_codes)) in
    absurd (cc (e, there))
slot-Gives f n (some (some p)) ok lt e = (p, refl, ok.holds n p e, ok, λ q m h. h)
slot-Gives f n (some none) ok lt e = (
  length f.made,
  refl,
  ground (arith, get_elem?-append_one f.made n (length f.made)),
  filled-IsShared f ok n e,
  λ q m h. ground (arith, h, get_elem?-append_one f.made n q, get_elem?-length f.made),
)

create-Gives :
    (n : ℕ) (f : GlyphFactory)
    → n < nb_char_codes
    → IsShared f
    → Gives n f (create_character (pos n) f)
unfolding create_character
create-Gives n f lt ok =
    subst (Gives n f) (sym taken) (slot-Gives f n (get_elem? f.chars n) ok lt refl)
  where
    taken : create_character (pos n) f ≡ slot n (get_elem? f.chars n) f
    taken = ground arith

-- A request for any char keeps what there is.
abbrev Keeps : GlyphFactory → GlyphFactory → Type 0
Keeps f g = IsShared g × ((q m : ℕ) → get_elem? f.made q ≡ some m → get_elem? g.made q ≡ some m)

create-Keeps : (c : ℤ) (f : GlyphFactory) → IsShared f → Keeps f (create_character c f).1
unfolding create_character
create-Keeps (negsuc n) f ok = (ok, λ q m h. h)
create-Keeps (pos n) f ok = elim (Bool-cases (leb nb_char_codes n)) [
  | inl e ↦ rw e (ok, λ q m h. h)
  | inr e ↦ rw e (
      let (p, given, held, fine, kept) =
        slot-Gives f n (get_elem? f.chars n) ok (ground arith) refl in
      (fine, kept))
]

create_all-Keeps : (cs : List ℤ) (f : GlyphFactory) → IsShared f → Keeps f (create_all cs f)
unfolding create_all
create_all-Keeps [] f ok = (ok, λ q m h. h)
create_all-Keeps (c ∷ cs) f ok =
    let (fine, kept) = create-Keeps c f ok in
    let (fine', kept') = create_all-Keeps cs (create_character c f).1 fine in
    (fine', λ q m h. kept' q m (kept q m h))

replicate-none : (n k p : ℕ) → get_elem? (replicate n none) k ≡ some (some p) → ⊥
replicate-none zero k p e = cc e
replicate-none (suc n) zero p e = cc e
replicate-none (suc n) (suc k) p e = replicate-none n k p e

new_factory-IsShared : IsShared new_factory
unfolding new_factory
new_factory-IsShared = record {
  all_codes = refl;
  holds = λ n p e. absurd (replicate-none nb_char_codes n p e);
  found = λ p n e. absurd (cc e);
}

-- Whatever was asked of a new factory before, and is asked in between: CreateCharacter gives an object for each
-- code below 128, and gives the same object a second time exactly if the code is the same.
pub create_character-shared :
    (before between : List ℤ) (c d : ℕ)
    → c < nb_char_codes
    → d < nb_char_codes
    → (p q : ℕ) × ((create_character (pos c) (create_all before new_factory)).0 ≡ some p)
      × ((create_character
            (pos d)
            (create_all between (create_character (pos c) (create_all before new_factory)).1)).0
          ≡ some q)
      × (p ≡ q ↔ c ≡ d)
create_character-shared before between c d hc hd =
    let (ok, _) = create_all-Keeps before new_factory new_factory-IsShared in
    let (p, first, held, ok', _) = create-Gives c (create_all before new_factory) hc ok in
    let (ok'', kept) =
      create_all-Keeps between (create_character (pos c) (create_all before new_factory)).1 ok' in
    let (q, second, held', last, kept') =
      create-Gives d
        (create_all between (create_character (pos c) (create_all before new_factory)).1) hd ok'' in
    let old = kept' p c (kept p c held) in
    (
      p,
      q,
      first,
      second,
      (
        λ e. some-injective _ _ (sym old ∙ ap (get_elem? _) e ∙ held'),
        λ e. some-injective _ _ (
            some-injective _ _
              (sym (last.found p c old) ∙ ap (get_elem? _) e ∙ last.found q d held')),
      ),
    )
