-- ===== src/OpenServer/Args/RoundTrip.antt =====
-- The request that a client writes is the one that the server reads.
use personal_project.Common.{
  equal_bytes, ℕ, ◌≡◌, refl, ap, sym, ◌∙◌, true, false, some, List, [], ◌∷◌, ◌++◌, append-nil,
  append_assoc, arith, ◌==◌, All,
}
use personal_project.Decimal.{Bytes, pos, decimal, atol}
use personal_project.Decimal.RoundTrip.{IsDigit, decimal-IsDigit, decimal_cons, atol-decimal}
use personal_project.OpenServer.Args.{is_white, emit, words, leading, buf_args, cl_open, cli_args}

abbrev pub IsWordByte : ℕ → Type 0
IsWordByte c = ((c == 0) ≡ false) × (is_white c ≡ false)

-- A text with no blank and no terminator.
abbrev pub IsWord : Bytes → Type 0
IsWord = All IsWordByte

IsWord-digits : (s : Bytes) → All IsDigit s → IsWord s
IsWord-digits [] h = tt
IsWord-digits (c ∷ s) h = ((ground (arith, h.0), ground (arith, h.0)), IsWord-digits s h.1)

words_cons :
    (acc : Bytes) (c : ℕ) (s : Bytes) → IsWordByte c → words acc (c ∷ s) ≡ words (acc ++ c ∷ []) s
unfolding words
words_cons acc c s h = ground arith

words_space : (acc s : Bytes) → words acc (b' ' ∷ s) ≡ emit acc ++ words [] s
unfolding words
words_space acc s = refl

words_end : (acc s : Bytes) → words acc (0 ∷ s) ≡ emit acc
unfolding words
words_end acc s = refl

words-word : (acc w s : Bytes) → IsWord w → words acc (w ++ s) ≡ words (acc ++ w) s
words-word acc [] s h = rw append-nil
words-word acc (c ∷ w) s h =
    words_cons acc c (w ++ s) h.0
    ∙ words-word (acc ++ c ∷ []) w s h.1
    ∙ ap (λ (t : Bytes). words t s) (append_assoc acc (c ∷ []) w)

-- What `csopen` of client1.c writes for a name and a flag.
unfoldable pub request_text : Bytes → ℕ → Bytes
request_text name oflag = cl_open ++ b' ' ∷ (name ++ b' ' ∷ (decimal oflag ++ 0 ∷ []))

emit-decimal : (n : ℕ) → emit (decimal n) ≡ decimal n ∷ []
emit-decimal n = let (c, s, e) = decimal_cons n in rw e

three_words :
    (c : ℕ) (name : Bytes) (oflag : ℕ)
    → IsWord (c ∷ name)
    → words [] (request_text (c ∷ name) oflag) ≡ cl_open ∷ (c ∷ name) ∷ decimal oflag ∷ []
unfolding request_text
three_words c name oflag h =
    words-word [] cl_open (b' ' ∷ ((c ∷ name) ++ b' ' ∷ (decimal oflag ++ 0 ∷ [])))
      ((refl, refl), ((refl, refl), ((refl, refl), ((refl, refl), tt))))
    ∙ words_space cl_open ((c ∷ name) ++ b' ' ∷ (decimal oflag ++ 0 ∷ []))
    ∙ ap (λ (t : List Bytes). cl_open ∷ t)
        (words-word [] (c ∷ name) (b' ' ∷ (decimal oflag ++ 0 ∷ [])) h
          ∙ words_space (c ∷ name) (decimal oflag ++ 0 ∷ [])
          ∙ ap (λ (t : List Bytes). (c ∷ name) ∷ t)
              (words-word [] (decimal oflag) (0 ∷ [])
                  (IsWord-digits (decimal oflag) (decimal-IsDigit oflag))
                ∙ words_end (decimal oflag) []
                ∙ emit-decimal oflag))

starts_with_verb :
    (c : ℕ) (name : Bytes) (oflag : ℕ)
    → equal_bytes (leading (request_text (c ∷ name) oflag) ++ cl_open) cl_open ≡ true
unfolding leading request_text
starts_with_verb c name oflag = refl

number : (n : ℕ) → atol (decimal n) ≡ pos n
number n = ap atol (sym (append-nil (decimal n))) ∙ atol-decimal n [] tt

-- `buf_args` with `cli_args` takes the name and the flag out of the request that `csopen` writes.
pub buf_args-request_text :
    (c : ℕ) (name : Bytes) (oflag : ℕ)
    → IsWord (c ∷ name)
    → buf_args (request_text (c ∷ name) oflag) cli_args
      ≡ some (record { pathname = c ∷ name; oflag = pos oflag })
unfolding buf_args cli_args
buf_args-request_text c name oflag h =
    rw (three_words c name oflag h, starts_with_verb c name oflag, number oflag)
