-- ===== src/Trim/Squeeze.antt =====
-- What the loop of `trim_string` writes, by the words of the text.
use personal_project.Common.{
  ℕ, ◌≡◌, refl, sym, ap, ◌∙◌, Bool, true, false, not, ◌&&◌, List, [], ◌∷◌, ◌++◌, append-nil,
  append_assoc, if◌then◌else◌, Bool-cases, inl, inr, arith,
}
use personal_project.Decimal.{Bytes}
use personal_project.Trim.{is_blank, trim_loop}

abbrev pub blank : Bytes
blank = b' ' ∷ []

-- The words of a text, `word` being what was read of the current one.
abbrev pub keep : Bytes → List Bytes → List Bytes
keep [] ws = ws
keep (c ∷ w) ws = (c ∷ w) ∷ ws

unfoldable pub words_from : Bytes → Bytes → List Bytes
words_from word [] = keep word []
words_from word (c ∷ s) = elim (is_blank c) [
  | true ↦ keep word (words_from [] s)
  | false ↦ words_from (word ++ c ∷ []) s
]

-- Words with one blank between them.
unfoldable pub join : List Bytes → Bytes
join [] = []
join (w ∷ []) = w
join (w ∷ v ∷ ws) = w ++ b' ' ∷ join (v ∷ ws)

-- Whether a text, or the character in front of it, ends with a blank.
unfoldable pub ends_blank : Bool → Bytes → Bool
ends_blank before [] = before
ends_blank before (c ∷ s) = ends_blank (is_blank c) s

abbrev pub is_empty {ℓ} : {A : Type ℓ} → List A → Bool
is_empty [] = true
is_empty (x ∷ xs) = false

-- The text that the loop writes, `found` saying whether a blank stands in front.
pub squeezed : Bool → Bytes → Bytes
squeezed found [] = []
squeezed true (c ∷ s) = elim (is_blank c) [ true ↦ squeezed true s | false ↦ c ∷ squeezed false s ]
squeezed false (c ∷ s) = c ∷ squeezed (is_blank c) s

-- The steps of the functions, for a blank and for another character.
module _ (c : ℕ) (s : Bytes) where
  words_from_blank :
      (w : Bytes) → is_blank c ≡ true → words_from w (c ∷ s) ≡ keep w (words_from [] s)
  unfolding words_from
  words_from_blank w e = rw (words_from, e)

  words_from_other :
      (w : Bytes) → is_blank c ≡ false → words_from w (c ∷ s) ≡ words_from (w ++ c ∷ []) s
  unfolding words_from
  words_from_other w e = rw (words_from, e)

  trim_loop_skip :
      (out : Bytes)
      → is_blank c ≡ true
      → trim_loop false true (c ∷ s) out ≡ trim_loop false true s out
  unfolding trim_loop
  trim_loop_skip out e = rw (trim_loop, e)

  trim_loop_skip_first :
      (out : Bytes)
      → is_blank c ≡ true
      → trim_loop true false (c ∷ s) out ≡ trim_loop false true s out
  unfolding trim_loop
  trim_loop_skip_first out e = rw (trim_loop, e)

  trim_loop_blank :
      (out : Bytes)
      → is_blank c ≡ true
      → trim_loop false false (c ∷ s) out ≡ trim_loop false true s (out ++ c ∷ [])
  unfolding trim_loop
  trim_loop_blank out e = rw (trim_loop, e)

  trim_loop_other :
      (first found : Bool) (out : Bytes)
      → is_blank c ≡ false
      → trim_loop first found (c ∷ s) out ≡ trim_loop false false s (out ++ c ∷ [])
  unfolding trim_loop
  trim_loop_other first found out e = rw (trim_loop, e)

  squeezed_skip : is_blank c ≡ true → squeezed true (c ∷ s) ≡ squeezed true s
  unfolding squeezed
  squeezed_skip e = rw (squeezed, e)

  squeezed_other :
      (found : Bool) → is_blank c ≡ false → squeezed found (c ∷ s) ≡ c ∷ squeezed false s
  unfolding squeezed
  squeezed_other true e = rw (squeezed, e)
  squeezed_other false e = ap (λ b. c ∷ squeezed b s) e

  squeezed_blank : is_blank c ≡ true → squeezed false (c ∷ s) ≡ c ∷ squeezed true s
  unfolding squeezed
  squeezed_blank e = ap (λ b. c ∷ squeezed b s) e

  ends_blank_step : (found b : Bool) → is_blank c ≡ b → ends_blank found (c ∷ s) ≡ ends_blank b s
  unfolding ends_blank
  ends_blank_step found b e = ap (λ b. ends_blank b s) e

trim_loop-squeezed :
    (found : Bool) (s out : Bytes)
    → trim_loop false found s out ≡ (out ++ squeezed found s, ends_blank found s)
trim_loop-squeezed found [] out = unfold trim_loop squeezed ends_blank in rw append-nil
trim_loop-squeezed true (c ∷ s) out = elim (Bool-cases (is_blank c)) [
  | inl e ↦
      rw (trim_loop_skip c s out e, squeezed_skip c s e, ends_blank_step c s true true e)
        (trim_loop-squeezed true s out)
  | inr e ↦ rw (
    trim_loop_other c s false true out e,
    squeezed_other c s true e,
    ends_blank_step c s true false e,
    trim_loop-squeezed false s (out ++ c ∷ []),
    append_assoc,
  )
]
trim_loop-squeezed false (c ∷ s) out = elim (Bool-cases (is_blank c)) [
  | inl e ↦ rw (
    trim_loop_blank c s out e,
    squeezed_blank c s e,
    ends_blank_step c s false true e,
    trim_loop-squeezed true s (out ++ c ∷ []),
    append_assoc,
  )
  | inr e ↦ rw (
    trim_loop_other c s false false out e,
    squeezed_other c s false e,
    ends_blank_step c s false false e,
    trim_loop-squeezed false s (out ++ c ∷ []),
    append_assoc,
  )
]

words_from-word : (c : ℕ) (w s : Bytes) → is_empty (words_from (c ∷ w) s) ≡ false
words_from-word c w [] = unfold words_from in refl
words_from-word c w (d ∷ s) = elim (Bool-cases (is_blank d)) [
  | inl e ↦ rw (words_from_blank d s (c ∷ w) e)
  | inr e ↦ rw (words_from_other d s (c ∷ w) e) (words_from-word c (w ++ d ∷ []) s)
]

-- A text without words ends with a blank, if it is behind one.
no_words-ends_blank : (s : Bytes) → is_empty (words_from [] s) ≡ true → ends_blank true s ≡ true
no_words-ends_blank [] h = unfold ends_blank in refl
no_words-ends_blank (c ∷ s) h = elim (Bool-cases (is_blank c)) [
  | inl e ↦
      ends_blank_step c s true true e
      ∙ no_words-ends_blank s (sym (ap is_empty (words_from_blank c s [] e)) ∙ h)
  | inr e ↦
      let apart : false ≡ true = cc (h, words_from_other c s [] e, words_from-word c [] s) in
      absurd (cc apart)
]

abbrev pub tail : Bool → Bytes
tail b = if b then blank else []

join-cons :
    (w : Bytes) (ws : List Bytes) (b : Bool)
    → (is_empty ws ≡ true → b ≡ true)
    → w ++ b' ' ∷ (join ws ++ tail (b && not (is_empty ws))) ≡ join (w ∷ ws) ++ tail b
unfolding join
join-cons w [] true h = refl
join-cons w [] false h = absurd (cc (h refl))
join-cons w (v ∷ vs) true h = rw append_assoc
join-cons w (v ∷ vs) false h = rw append_assoc

blank_eq : (c : ℕ) → is_blank c ≡ true → c ≡ b' '
blank_eq c h = ground arith

and_true : (b : Bool) → b ≡ b && true
and_true true = refl
and_true false = refl

squeezed-word_end :
    (c : ℕ) (w : Bytes)
    → (c ∷ w) ++ squeezed false [] ≡ join (words_from (c ∷ w) []) ++ tail (ends_blank false [])
unfolding squeezed words_from ends_blank join
squeezed-word_end c w = refl

squeezed-words_end :
    squeezed true []
    ≡ join (words_from [] []) ++ tail (ends_blank true [] && not (is_empty (words_from [] [])))
unfolding squeezed words_from ends_blank join
squeezed-words_end = refl

mutual
  squeezed-word :
      (c : ℕ) (w s : Bytes)
      → (c ∷ w) ++ squeezed false s ≡ join (words_from (c ∷ w) s) ++ tail (ends_blank false s)
  squeezed-word c w [] = squeezed-word_end c w
  squeezed-word c w (d ∷ s) = elim (Bool-cases (is_blank d)) [
    | inl e ↦
        rw
          (
            squeezed_blank d s e,
            words_from_blank d s (c ∷ w) e,
            ends_blank_step d s false true e,
            blank_eq d e,
            squeezed-words s,
          )
          (join-cons (c ∷ w) (words_from [] s) (ends_blank true s) (no_words-ends_blank s))
    | inr e ↦
        rw
          (
            squeezed_other d s false e,
            words_from_other d s (c ∷ w) e,
            ends_blank_step d s false false e,
          )
          (sym (append_assoc (c ∷ w) (d ∷ []) (squeezed false s)) ∙ squeezed-word c (w ++ d ∷ []) s)
  ]

  pub squeezed-words :
      (s : Bytes)
      → squeezed true s
        ≡ join (words_from [] s) ++ tail (ends_blank true s && not (is_empty (words_from [] s)))
  squeezed-words [] = squeezed-words_end
  squeezed-words (c ∷ s) = elim (Bool-cases (is_blank c)) [
    | inl e ↦
        rw (squeezed_skip c s e, words_from_blank c s [] e, ends_blank_step c s true true e)
          (squeezed-words s)
    | inr e ↦
        rw
          (
            squeezed_other c s true e,
            words_from_other c s [] e,
            ends_blank_step c s true false e,
            words_from-word c [] s,
          )
          (squeezed-word c [] s
            ∙ ap (λ b. join (words_from (c ∷ []) s) ++ tail b) (and_true (ends_blank false s)))
  ]

pub trim_loop-words :
    (c : ℕ) (s : Bytes)
    → trim_loop true false (c ∷ s) [] ≡ (squeezed true (c ∷ s), ends_blank true (c ∷ s))
trim_loop-words c s = elim (Bool-cases (is_blank c)) [
  | inl e ↦
      rw (trim_loop_skip_first c s [] e, squeezed_skip c s e, ends_blank_step c s true true e)
        (trim_loop-squeezed true s [])
  | inr e ↦
      rw
        (
          trim_loop_other c s true false [] e,
          squeezed_other c s true e,
          ends_blank_step c s true false e,
        )
        (trim_loop-squeezed false s (c ∷ []))
]
