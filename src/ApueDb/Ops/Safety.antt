-- ===== src/ApueDb/Ops/Safety.antt =====
-- What the operations leave of the files, whatever calls fail.
use mathlib.Core.Path.{subst}
use personal_project.Common.{
  ℕ, zero, suc, ◌≡◌, ◌≢◌, refl, ◌⊎◌, inl, inr, Bool, true, false, Option, none, some, arith, ◌+◌,
  ◌||◌, ltb, length, if◌then◌else◌,
}
use personal_project.Decimal.{Bytes, ℤ, pos, is_negative}
use personal_project.Posix.{minus_one, set_lock}
use personal_project.ApueDb.State.{Db, M, pure, get, and_then, ◌>>=◌, cstr, datlen_min, datlen_max}
use personal_project.ApueDb.Entry.{readidx, readdat}
use personal_project.ApueDb.Frame.{
  Keeps, Holds, SameFiles, SameFiles-trans, same_files, keeps_rules, SameFiles-set_lock,
  SameFiles-Kept, SameFiles-refl, Keeps-pure, Keeps-if, Keeps-get, Keeps-bind,
}
use personal_project.ApueDb.Frame.Walks.{Keeps-readidx, Keeps-readdat, SameFiles-find_and_lock}
use personal_project.ApueDb.Chain.{find_and_lock}
use personal_project.ApueDb.Ops.{
  Flag, db_insert, db_replace, db_store, flag_of, fetch, unlock_chain, fetch_found, store,
  store_error, store_missing, store_existing, store_flag, store_new, store_over, all_spaces,
  next_entry, next_found, nextrec,
}

Holds-some :
    {A : Type 0} (P : A → Db → Type 0) {o : Option (A × Db)} {a : A} {t : Db}
    → o ≡ some (a, t)
    → Holds P o
    → P a t
Holds-some P e h = subst (Holds P) e h

SameFiles-unlock_chain : {A : Type 0} (a b : A) → Keeps same_files (unlock_chain a b)
unfolding unlock_chain
SameFiles-unlock_chain a b = search (keeps_rules, SameFiles-set_lock)

SameFiles-readdat : Keeps same_files readdat
SameFiles-readdat = SameFiles-Kept readdat Keeps-readdat

SameFiles-fetch_found : (found : ℤ) → Keeps same_files (fetch_found found)
unfolding fetch_found
SameFiles-fetch_found found = search (keeps_rules, SameFiles-readdat) depth 9

SameFiles-fetch : (fuel : ℕ) (key : Bytes) → Keeps same_files (fetch fuel key)
unfolding fetch
SameFiles-fetch fuel key =
    search (keeps_rules, SameFiles-find_and_lock, SameFiles-fetch_found, SameFiles-unlock_chain)

-- `db_fetch` writes to neither file, whichever of its calls fail.
fetch-SameFiles :
    (fuel : ℕ) (key : Bytes) (s t : Db) (r : Option Bytes)
    → fetch fuel key s ≡ some (r, t)
    → SameFiles s t
fetch-SameFiles fuel key s t r e =
    Holds-some (λ _ u. SameFiles s u) e ((SameFiles-fetch fuel key).at s)

SameFiles-readidx : (offset : ℤ) → Keeps same_files (readidx offset)
SameFiles-readidx offset = SameFiles-Kept (readidx offset) (Keeps-readidx offset)

SameFiles-next_entry : (fuel : ℕ) → Keeps same_files (next_entry fuel)
unfolding next_entry
SameFiles-next_entry zero = record { at = λ s. tt }
SameFiles-next_entry (suc fuel) = Keeps-bind (readidx (pos 0)) _ (SameFiles-readidx (pos 0)) λ next.
    Keeps-bind get _ Keeps-get λ s.
      Keeps-if (is_negative next) _ _ (Keeps-pure false)
        (Keeps-if (all_spaces (cstr s.idxbuf)) _ _ (SameFiles-next_entry fuel) (Keeps-pure true))

SameFiles-next_found : (b : Bool) → Keeps same_files (next_found b)
unfolding next_found
SameFiles-next_found true = search (keeps_rules, SameFiles-readdat) depth 9
SameFiles-next_found false = search keeps_rules

SameFiles-nextrec : (fuel : ℕ) → Keeps same_files (nextrec fuel)
unfolding nextrec
SameFiles-nextrec fuel =
    search (keeps_rules, SameFiles-set_lock, SameFiles-next_entry, SameFiles-next_found) depth 9

-- A result other than 0 comes with the files as they were.
abbrev Refused : Db → ℤ → Db → Type 0
Refused s rc t = (rc ≡ pos 0) ⊎ SameFiles s t

Holds-bind :
    {A B : Type 0} (P : A → Db → Type 0) (Q : B → Db → Type 0) (o : Option (A × Db)) (f : A → M B)
    → Holds P o
    → ((a : A) (t : Db) → P a t → Holds Q (f a t))
    → Holds Q (and_then o f)
Holds-bind P Q none f h k = tt
Holds-bind P Q (some (a, t)) f h k = k a t h

Holds-mono :
    {A : Type 0} (P Q : A → Db → Type 0) (o : Option (A × Db))
    → Holds P o
    → ((a : A) (t : Db) → P a t → Q a t)
    → Holds Q o
Holds-mono P Q none h k = tt
Holds-mono P Q (some (a, t)) h k = k a t h

Holds-any : {A : Type 0} (o : Option (A × Db)) → Holds (λ _ _. Unit {0}) o
Holds-any none = tt
Holds-any (some _) = tt

zero_result :
    (m : M (Unit {0})) (s t : Db) → Holds (Refused s) (and_then (m t) (λ _ u. some (pos 0, u)))
zero_result m s t =
    Holds-bind (λ _ _. Unit {0}) (Refused s) (m t) (λ _ u. some (pos 0, u)) (Holds-any (m t))
      (λ _ _ _. inl refl)

refused :
    (s t : Db) (o : Option (ℤ × Db))
    → SameFiles s t
    → Holds (λ _ u. SameFiles t u) o
    → Holds (Refused s) o
refused s t o h k =
    Holds-mono (λ _ u. SameFiles t u) (Refused s) o k (λ rc u l. inr (SameFiles-trans s t u h l))

SameFiles-store_error : (rc : ℤ) → Keeps same_files (store_error rc)
unfolding store_error
SameFiles-store_error rc = search keeps_rules depth 9

Refused-missing :
    (fuel : ℕ) (key text : Bytes) (f : Flag) (s t : Db)
    → SameFiles s t
    → Holds (Refused s) (store_missing fuel key text f t)
unfolding store_missing ◌>>=◌
Refused-missing fuel key text db_replace s t h =
    refused s t _ h ((SameFiles-store_error minus_one).at t)
Refused-missing fuel key text db_insert s t h = zero_result (store_new fuel key text) s t
Refused-missing fuel key text db_store s t h = zero_result (store_new fuel key text) s t

Refused-existing :
    (key text : Bytes) (f : Flag) (s t : Db)
    → SameFiles s t
    → Holds (Refused s) (store_existing key text f t)
unfolding store_existing ◌>>=◌
Refused-existing key text db_insert s t h = refused s t _ h ((SameFiles-store_error (pos 1)).at t)
Refused-existing key text db_replace s t h = zero_result (store_over key text) s t
Refused-existing key text db_store s t h = zero_result (store_over key text) s t

Refused-if :
    (b : Bool) (m n : M ℤ) (s t : Db)
    → Holds (Refused s) (m t)
    → Holds (Refused s) (n t)
    → Holds (Refused s) ((if b then m else n) t)
Refused-if true m n s t h k = h
Refused-if false m n s t h k = k

-- The result of the unlocking is the result of the store, whether it succeeds or not.
unlock_chain-result :
    (s : Db) (rc : ℤ) (t : Db) → Refused s rc t → Holds (Refused s) (unlock_chain rc rc t)
unfolding unlock_chain set_lock ◌>>=◌
unlock_chain-result s rc t (inl zero_rc) = ground arith
unlock_chain-result s rc t (inr same) = ground arith

Refused-store_flag :
    (fuel : ℕ) (key text : Bytes) (o : Option Flag) (s : Db)
    → Holds (Refused s) (store_flag fuel key text o s)
unfolding store_flag ◌>>=◌
Refused-store_flag fuel key text none s = inr (SameFiles-refl s)
Refused-store_flag fuel key text (some f) s =
    Refused-if (ltb (length text + 1) datlen_min || ltb datlen_max (length text + 1))
      (pure minus_one) _ s s (inr (SameFiles-refl s))
      (Holds-bind (λ _ t. SameFiles s t) (Refused s) (find_and_lock fuel key true s) _
        ((SameFiles-find_and_lock fuel key true).at s)
        λ found t h.
          Holds-bind (Refused s) (Refused s) _ _
            (Refused-if (is_negative found) (store_missing fuel key text f)
              (store_existing key text f) s t (Refused-missing fuel key text f s t h)
              (Refused-existing key text f s t h))
            (λ rc u k. unlock_chain-result s rc u k))

-- If `db_store` returns anything but 0, it has written to neither file, whichever of its calls fail.
pub store-SameFiles :
    (fuel : ℕ) (key text : Bytes) (flag : ℕ) (s t : Db) (rc : ℤ)
    → store fuel key text flag s ≡ some (rc, t)
    → rc ≢ pos 0
    → SameFiles s t
unfolding store
store-SameFiles fuel key text flag s t rc e failed =
    elim (Holds-some (Refused s) e (Refused-store_flag fuel key text (flag_of flag) s)) [
      | inl zero_rc ↦ absurd (failed zero_rc)
      | inr same ↦ same
    ]
