-- ===== src/Trim/Witnesses.antt =====
-- Runs of `trim_string`, and its theorem at a concrete text.
use personal_project.Common.{◌≡◌, refl, some, [], ◌∷◌, ◌++◌, if◌then◌else◌}
use personal_project.Decimal.{Bytes, pos}
use personal_project.Trim.{trim_loop, finish, trim_string}
use personal_project.Trim.Squeeze.{words_from, join}
use personal_project.Trim.Words.{leaves_blank, trim_string-join}

abbrev two_words : Bytes
two_words = b' ' ∷ b'a' ∷ b'b' ∷ b' ' ∷ b' ' ∷ b'c' ∷ b' ' ∷ []

abbrev one_word : Bytes
one_word = b'a' ∷ b' ' ∷ b' ' ∷ []

trimmed : trim_string (some two_words) ≡ (pos 0, some (b'a' ∷ b'b' ∷ b' ' ∷ b'c' ∷ []))
unfolding trim_string trim_loop finish
trimmed = refl

-- Of two blanks at the end of a word that starts the text one stays.
blank_left : trim_string (some one_word) ≡ (pos 0, some (b'a' ∷ b' ' ∷ []))
unfolding trim_string trim_loop finish
blank_left = refl

trim_string-join_example : trim_string (some two_words) ≡ (
  pos 0,
  some (join (words_from [] two_words) ++ (if leaves_blank two_words then b' ' ∷ [] else [])),
)
trim_string-join_example = trim_string-join two_words
