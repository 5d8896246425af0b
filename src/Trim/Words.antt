-- ===== src/Trim/Words.antt =====
-- What `trim_string` makes of a text, by its words.
use personal_project.Trim.Squeeze.{
  blank, words_from, join, ends_blank, is_empty, tail, squeezed-words, trim_loop-words,
}
use personal_project.Common.{
  ℕ, zero, suc, ◌+◌, ◌-◌, ◌≡◌, refl, sym, ap, ◌∙◌, Bool, true, false, not, ◌&&◌, some, List, [],
  ◌∷◌, ◌++◌, append-nil, if◌then◌else◌, length, take, drop, get_or, length-append,
  take-append_length, take_nil, Bool-cases, inl, inr, arith,
}
use personal_project.Decimal.{Bytes, pos}
use personal_project.Trim.{is_blank, trim_loop, memory, finish, trim_string}

get_or_past : (out : Bytes) → get_or (out ++ []) (length out) 0 ≡ 0
get_or_past [] = refl
get_or_past (c ∷ out) = get_or_past out

get_or-memory :
    (out t : Bytes) → get_or (out ++ drop (length out) t) (length out) 0 ≡ get_or t (length out) 0
get_or-memory [] t = refl
get_or-memory (c ∷ out) [] = get_or_past out
get_or-memory (c ∷ out) (d ∷ t) = get_or-memory out t

get_or-end : (s : Bytes) (n : ℕ) → get_or (s ++ 0 ∷ []) n 0 ≡ get_or s n 0
get_or-end [] zero = refl
get_or-end [] (suc n) = refl
get_or-end (c ∷ s) zero = refl
get_or-end (c ∷ s) (suc n) = get_or-end s n

-- Whether a blank is left behind the last word: the text ends with a blank, and the character behind
-- the words and one blank is a blank too.
abbrev pub leaves_blank : Bytes → Bool
leaves_blank s =
    ends_blank true s
    && (not (is_empty (words_from [] s))
        && is_blank (get_or s (length (join (words_from [] s)) + 1) 0))

-- The character that `finish` looks at.
get_or-written :
    (s j : Bytes)
    → get_or (memory (j ++ blank) s) (length (j ++ blank)) 0 ≡ get_or s (length j + 1) 0
get_or-written s j =
    get_or-memory (j ++ blank) (s ++ 0 ∷ [])
    ∙ get_or-end s (length (j ++ blank))
    ∙ ap (λ n. get_or s n 0) (length-append j blank)

finish-keep :
    (s out : Bytes)
    → is_blank (get_or (memory out s) (length out) 0) ≡ true
    → finish s (out, true) ≡ out
unfolding finish
finish-keep s out h = rw (finish, h)

finish-drop :
    (s out : Bytes)
    → is_blank (get_or (memory out s) (length out) 0) ≡ false
    → finish s (out, true) ≡ take (length out - 1) out
unfolding finish
finish-drop s out h = rw (finish, h)

finish-nil : (s : Bytes) (flag : Bool) → finish s ([], flag) ≡ []
finish-nil s false = unfold finish in refl
finish-nil s true = elim (Bool-cases (is_blank (get_or (memory [] s) 0 0))) [
  | inl e ↦ finish-keep s [] e
  | inr e ↦ finish-drop s [] e ∙ take_nil (0 - 1)
]

finish-cases :
    (s j : Bytes) (flag some_words : Bool)
    → (some_words ≡ false → j ≡ [])
    → finish s (j ++ tail (flag && some_words), flag)
      ≡ j ++ tail (flag && (some_words && is_blank (get_or s (length j + 1) 0)))
finish-cases s j false some_words h = unfold finish in refl
finish-cases s j true false h = rw (h refl) (finish-nil s true)
finish-cases s j true true h = elim (Bool-cases (is_blank (get_or s (length j + 1) 0))) [
  | inl e ↦ rw e (finish-keep s (j ++ blank) (ap is_blank (get_or-written s j) ∙ e))
  | inr e ↦
      rw (e, finish-drop s (j ++ blank) (ap is_blank (get_or-written s j) ∙ e))
        (take-append_length j blank (length (j ++ blank) - 1) (omega (arith, length-append j blank))
          ∙ sym (append-nil j))
]

not_empty : (ws : List Bytes) → not (is_empty ws) ≡ false → join ws ≡ []
unfolding join
not_empty [] h = refl
not_empty (w ∷ ws) h = absurd (cc h)

-- `trim_string` returns 0 and leaves the words of the text with one blank between them, and one blank
-- behind them in the case of `leaves_blank`.
pub trim_string-join :
    (s : Bytes)
    → trim_string (some s)
      ≡ (pos 0, some (join (words_from [] s) ++ (if leaves_blank s then b' ' ∷ [] else [])))
unfolding trim_string
trim_string-join [] = unfold trim_loop finish words_from join ends_blank in refl
trim_string-join (c ∷ s) =
    ap (λ t. (pos 0, some t))
      (ap (finish (c ∷ s)) (trim_loop-words c s)
        ∙ ap (λ t. finish (c ∷ s) (t, ends_blank true (c ∷ s))) (squeezed-words (c ∷ s))
        ∙ finish-cases (c ∷ s) (join (words_from [] (c ∷ s))) (ends_blank true (c ∷ s))
            (not (is_empty (words_from [] (c ∷ s)))) (not_empty (words_from [] (c ∷ s))))
