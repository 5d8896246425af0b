-- ===== src/ApueDb/Frame.antt =====
-- What a part of apue_db.c leaves as it was, whatever calls fail.
pub mod Walks
use personal_project.Common.{
  ℕ, ◌≡◌, refl, Bool, true, false, Option, none, some, [], arith, if◌then◌else◌,
}
use personal_project.Decimal.{ℤ}
use personal_project.Posix.{Fd, idxfd, datfd, LockType, Whence, lseek, read, set_lock}
use personal_project.ApueDb.State.{Db, M, pure, get, modify, sys, and_then, ◌>>=◌}

-- If the run ends, its result and its state have the property.
abbrev pub Holds : {A : Type 0} → (A → Db → Type 0) → Option (A × Db) → Type 0
Holds P none = Unit
Holds P (some (a, t)) = P a t

-- A relation of a state to a later one.
pub record Frame : Type 1 where
  pub Rel : Db → Db → Type 0
  pub same : (s : Db) → Rel s s
  pub join : (r s t : Db) → Rel r s → Rel s t → Rel r t

pub record Keeps (F : Frame) {A : Type 0} (m : M A) : Type 0 where
  pub at : (s : Db) → Holds (λ _ t. F.Rel s t) (m s)

-- A state that a walk along a chain may reach: the files' contents, the locks and what the handle
-- knows of the chains are as before, and calls that cannot fail still cannot.
pub record Kept (s t : Db) : Type 0 where
  pub idx : t.os.idx.content ≡ s.os.idx.content
  pub dat : t.os.dat.content ≡ s.os.dat.content
  pub locks : t.os.locks ≡ s.os.locks
  pub calm : s.os.faults ≡ [] → t.os.faults ≡ []
  pub stack : t.stack ≡ s.stack
  pub ptrval : t.ptrval ≡ s.ptrval
  pub chainoff : t.chainoff ≡ s.chainoff
  pub hashoff : t.hashoff ≡ s.hashoff
  pub nhash : t.nhash ≡ s.nhash
  pub counts : t.counts ≡ s.counts

-- A state in which the files' contents are as before.
pub record SameFiles (s t : Db) : Type 0 where
  pub idx : t.os.idx.content ≡ s.os.idx.content
  pub dat : t.os.dat.content ≡ s.os.dat.content

pub Kept-refl : (s : Db) → Kept s s
Kept-refl s = ground arith

pub Kept-trans : (r s t : Db) → Kept r s → Kept s t → Kept r t
Kept-trans r s t h k = ground arith

pub SameFiles-refl : (s : Db) → SameFiles s s
SameFiles-refl s = ground arith

pub SameFiles-trans : (r s t : Db) → SameFiles r s → SameFiles s t → SameFiles r t
SameFiles-trans r s t h k = ground arith

abbrev pub kept : Frame
kept = record { Rel = Kept; same = Kept-refl; join = Kept-trans }

abbrev pub same_files : Frame
same_files = record { Rel = SameFiles; same = SameFiles-refl; join = SameFiles-trans }

before :
    {B : Type 0} (F : Frame) (r s : Db) (o : Option (B × Db))
    → F.Rel r s
    → Holds (λ _ t. F.Rel s t) o
    → Holds (λ _ t. F.Rel r t) o
before F r s none h k = tt
before F r s (some (a, t)) h k = F.join r s t h k

after :
    {A B : Type 0} (F : Frame) (r : Db) (f : A → M B) (o : Option (A × Db))
    → Holds (λ _ t. F.Rel r t) o
    → ((a : A) → Keeps F (f a))
    → Holds (λ _ t. F.Rel r t) (and_then o f)
after F r f none h k = tt
after F r f (some (a, s)) h k = before F r s (f a s) h ((k a).at s)

module _ {F : Frame} where
  module _ {A : Type 0} where
    pub Keeps-pure : (a : A) → Keeps F (pure a)
    unfolding ◌>>=◌
    Keeps-pure a = record { at = F.same }

    pub Keeps-if : (b : Bool) (m n : M A) → Keeps F m → Keeps F n → Keeps F (if b then m else n)
    Keeps-if true m n km kn = km
    Keeps-if false m n km kn = kn

  pub Keeps-get : Keeps F get
  unfolding ◌>>=◌
  Keeps-get = record { at = F.same }

  pub Keeps-modify : (f : Db → Db) → ((s : Db) → F.Rel s (f s)) → Keeps F (modify f)
  unfolding ◌>>=◌
  Keeps-modify f h = record { at = h }

  module _ {A B : Type 0} where
    pub Keeps-bind :
        (m : M A) (f : A → M B) → Keeps F m → ((a : A) → Keeps F (f a)) → Keeps F (m >>= f)
    unfolding ◌>>=◌
    Keeps-bind m f km kf = record { at = λ s. after F s f (m s) (km.at s) kf }

pub Keeps-lseek : (fd : Fd) (offset : ℤ) (w : Whence) → Keeps kept (sys (lseek fd offset w))
unfolding ◌>>=◌ lseek
Keeps-lseek idxfd offset w = record { at = λ s. ground arith }
Keeps-lseek datfd offset w = record { at = λ s. ground arith }

pub Keeps-read : (fd : Fd) (n : ℕ) → Keeps kept (sys (read fd n))
unfolding ◌>>=◌ read
Keeps-read idxfd n = record { at = λ s. ground arith }
Keeps-read datfd n = record { at = λ s. ground arith }

pub SameFiles-set_lock :
    (fd : Fd) (l : Option LockType) (start len : ℕ)
    → Keeps same_files (sys (set_lock fd l start len))
unfolding ◌>>=◌ set_lock
SameFiles-set_lock fd l start len = record { at = λ s. ground arith }

Holds-weaken :
    {A : Type 0} (s : Db) (o : Option (A × Db))
    → Holds (λ _ t. Kept s t) o
    → Holds (λ _ t. SameFiles s t) o
Holds-weaken s none h = tt
Holds-weaken s (some (a, t)) h = record { idx = h.idx; dat = h.dat }

pub SameFiles-Kept : {A : Type 0} (m : M A) → Keeps kept m → Keeps same_files m
SameFiles-Kept m k = record { at = λ s. Holds-weaken s (m s) (k.at s) }

pub ruleset keeps_rules =
    (Keeps-pure, Keeps-if, Keeps-get, Keeps-modify, Keeps-lseek, Keeps-read, Keeps-bind)
