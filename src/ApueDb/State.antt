-- ===== src/ApueDb/State.antt =====
-- The handle of apue_db.c (`DB`) with the files behind it, and actions on it.
use personal_project.Common.{
  ℕ, suc, ◌-◌, ◌%◌, ◌^◌, Option, none, some, [], ◌∷◌, ◌==◌, if◌then◌else◌,
}
use personal_project.Decimal.{Bytes, ℤ, pos, negsuc}
use personal_project.Posix.{Os}

abbrev pub idxlen_sz : ℕ
idxlen_sz = 4

abbrev pub sep : ℕ
sep = b':'

abbrev pub space : ℕ
space = b' '

abbrev pub newline : ℕ
newline = 10

abbrev pub ptr_sz : ℕ
ptr_sz = 6

abbrev pub ptr_max : ℕ
ptr_max = 999999

abbrev pub nhash_def : ℕ
nhash_def = 137

abbrev pub free_off : ℕ
free_off = 0

abbrev pub hash_off : ℕ
hash_off = 6

abbrev pub idxlen_min : ℕ
idxlen_min = 6

abbrev pub idxlen_max : ℕ
idxlen_max = 1024

abbrev pub datlen_min : ℕ
datlen_min = 2

abbrev pub datlen_max : ℕ
datlen_max = 1024

-- The counters of the handle.
pub record Counts : Type 0 where
  pub delok : ℕ
  pub delerr : ℕ
  pub fetchlok : ℕ
  pub fetcherr : ℕ
  pub nextrec : ℕ
  pub stor1 : ℕ
  pub stor2 : ℕ
  pub stor3 : ℕ
  pub stor4 : ℕ
  pub storerr : ℕ

abbrev pub no_counts : Counts
no_counts = record {
  delok = 0;
  delerr = 0;
  fetchlok = 0;
  fetcherr = 0;
  nextrec = 0;
  stor1 = 0;
  stor2 = 0;
  stor3 = 0;
  stor4 = 0;
  storerr = 0;
}

-- `DB`, with the open files in place of the descriptors. `stack` is what the memory behind the four
-- bytes of `asciilen` in `_db_readidx` holds: nothing terminates that text.
pub record Db : Type 0 where
  pub os : Os
  pub stack : Bytes
  pub name : Bytes
  pub idxbuf : Bytes
  pub datbuf : Bytes
  pub idxoff : ℤ
  pub idxlen : ℕ
  pub datoff : ℤ
  pub datlen : ℕ
  pub ptrval : ℤ
  pub ptroff : ℤ
  pub chainoff : ℕ
  pub hashoff : ℕ
  pub nhash : ℕ
  pub counts : Counts

-- An action on the handle; `none` means that the fuel of a loop ran out.
abbrev pub M : Type 0 → Type 0
M A = Db → Option (A × Db)

pub pure : {A : Type 0} → A → M A
pure a s = some (a, s)

pub get : M Db
get s = some (s, s)

pub modify : (Db → Db) → M (Unit {0})
modify f s = some (tt, f s)

-- A system call.
pub sys : {A : Type 0} → (Os → A × Os) → M A
sys f s = let (a, o) = f s.os in some (a, record s { os = o })

abbrev pub count : (Counts → Counts) → M (Unit {0})
count f = modify (λ s. record s { counts = f s.counts })

module _ {A B : Type 0} where
  abbrev pub and_then : Option (A × Db) → (A → M B) → Option (B × Db)
  and_then none f = none
  and_then (some (a, s)) f = f a s

  infixl 5 ◌>>=◌ ◌>>◌
  -- Opening this opens `pure`, `get`, `modify` and `sys` too.
  unfoldable pub ◌>>=◌ : M A → (A → M B) → M B
  unfolding pure get modify sys
  ◌>>=◌ m f s = and_then (m s) f

  abbrev pub ◌>>◌ : M A → M B → M B
  m >> n = m >>= λ _. n

-- The C string at the start of a buffer.
unfoldable pub cstr : Bytes → Bytes
cstr [] = []
cstr (c ∷ s) = if c == 0 then [] else c ∷ cstr s

-- The conversion of a signed number to `size_t`.
unfoldable pub to_size : ℤ → ℕ
to_size (pos n) = n % 2 ^ 64
to_size (negsuc n) = 2 ^ 64 - suc (n % 2 ^ 64)
