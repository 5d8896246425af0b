-- ===== src/Sockets.antt =====
-- The calls on sockets, descriptors and the names and modes of files that unique_connections.c makes.
use personal_project.Common.{
  ◌≡◌, refl, ap, ◌∙◌, arith, ℕ, ◌+◌, ◌*◌, ◌/◌, Bool, true, false, not, ◌&&◌, Option, none, some,
  List, [], ◌∷◌, ◌==◌, if◌then◌else◌, equal_bytes,
}
use personal_project.Decimal.{Bytes}
use personal_project.Posix.{next_fault, later_faults}

-- `struct stat`
pub record Stat : Type 0 where
  pub mode : ℕ
  pub uid : ℕ
  pub atime : ℕ
  pub mtime : ℕ
  pub ctime : ℕ

pub data Files : Type 0 where
  no_files : Files
  file : Bytes → Stat → Files → Files

-- A process with the files that it sees: its open descriptors, the one that the next call makes, the
-- permissions that its `umask` leaves to a new file, its user and number, the clock, and the outcomes
-- of its calls.
pub record Process : Type 0 where
  pub files : Files
  pub fds : List ℕ
  pub new_fd : ℕ
  pub new_perm : ℕ
  pub user : ℕ
  pub pid : ℕ
  pub clock : ℕ
  pub faults : List Bool

unfoldable pub find : Bytes → Files → Option Stat
find path no_files = none
find path (file p s fs) = if equal_bytes path p then some s else find path fs

unfoldable pub remove : Bytes → Files → Files
remove path no_files = no_files
remove path (file p s fs) = if equal_bytes path p then fs else file p s (remove path fs)

unfoldable pub without_fd : ℕ → List ℕ → List ℕ
without_fd fd [] = []
without_fd fd (x ∷ xs) = if fd == x then xs else x ∷ without_fd fd xs

unfoldable pub close : ℕ → Process → Process
close fd p = record p { fds = without_fd fd p.fds }

-- After a call that makes a descriptor.
abbrev pub Opens : ℕ → List ℕ → Option ℕ × Process → Type 0
Opens new old (none, p) = p.fds ≡ old
Opens new old (some fd, p) = (fd ≡ new) × (p.fds ≡ new ∷ old)

-- A call that only succeeds or fails.
unfoldable pub plain_call : Process → Bool × Process
plain_call p = (not (next_fault p.faults), record p { faults = later_faults p.faults })

unfoldable pub fd_outcome : Bool → Process → Option ℕ × Process
fd_outcome true p = (none, p)
fd_outcome false p = (some p.new_fd, record p { fds = p.new_fd ∷ p.fds })

-- A call that makes a descriptor.
unfoldable pub fd_call : Process → Option ℕ × Process
unfolding fd_outcome
fd_call p = fd_outcome (next_fault p.faults) (record p { faults = later_faults p.faults })

abbrev pub found : Option Stat → Bool
found none = false
found (some s) = true

-- A call that puts other files in the place of those that are there, if it succeeds.
change_files : Bool → Files → Process → Bool × Process
change_files true files p = (true, record p { faults = later_faults p.faults; files = files })
change_files false files p = (false, record p { faults = later_faults p.faults })

-- `unlink` fails for a name that is not there.
unfoldable pub unlink : Bytes → Process → Bool × Process
unfolding change_files
unlink path p =
    change_files (not (next_fault p.faults) && found (find path p.files)) (remove path p.files) p

-- `S_IFSOCK`
abbrev pub socket_type : ℕ
socket_type = 12 * 4096

abbrev pub new_socket : Process → Stat
new_socket p = record {
  mode = socket_type + p.new_perm;
  uid = p.user;
  atime = p.clock;
  mtime = p.clock;
  ctime = p.clock;
}

-- `bind` makes a socket in the file system, and fails for a name that is there.
unfoldable pub bind : Bytes → Process → Bool × Process
unfolding change_files
bind path p =
    change_files (not (next_fault p.faults) && not (found (find path p.files)))
      (file path (new_socket p) p.files) p

-- `S_IRWXU`
abbrev pub irwxu : ℕ
irwxu = 448

unfoldable pub set_mode : Bytes → ℕ → ℕ → Files → Files
set_mode path perm now no_files = no_files
set_mode path perm now (file p s fs) =
    if equal_bytes path p
    then file p (record s { mode = s.mode / 512 * 512 + perm; ctime = now }) fs
    else file p s (set_mode path perm now fs)

-- Whether `chmod` succeeds; it returns 0 or -1.
unfoldable pub chmod : Bytes → ℕ → Process → Bool × Process
unfolding change_files
chmod path perm p =
    change_files (not (next_fault p.faults) && found (find path p.files))
      (set_mode path perm p.clock p.files) p

without_fd-head : (fd : ℕ) (fds : List ℕ) → without_fd fd (fd ∷ fds) ≡ fds
unfolding without_fd
without_fd-head fd fds = ground arith

pub close-fds : (fd : ℕ) (old : List ℕ) (p : Process) → p.fds ≡ fd ∷ old → (close fd p).fds ≡ old
unfolding close
close-fds fd old p e = ap (without_fd fd) e ∙ without_fd-head fd old

fd_outcome-Opens : (fails : Bool) (p : Process) → Opens p.new_fd p.fds (fd_outcome fails p)
unfolding fd_outcome
fd_outcome-Opens true p = refl
fd_outcome-Opens false p = (refl, refl)

pub fd_call-Opens : (p : Process) → Opens p.new_fd p.fds (fd_call p)
unfolding fd_call
fd_call-Opens p =
    fd_outcome-Opens (next_fault p.faults) (record p { faults = later_faults p.faults })

change_files-fds :
    (done : Bool) (files : Files) (p : Process) → (change_files done files p).1.fds ≡ p.fds
unfolding change_files
change_files-fds true files p = refl
change_files-fds false files p = refl

pub unlink-fds : (path : Bytes) (p : Process) → (unlink path p).1.fds ≡ p.fds
unfolding unlink
unlink-fds path p =
    change_files-fds (not (next_fault p.faults) && found (find path p.files)) (remove path p.files)
      p

pub bind-fds : (path : Bytes) (p : Process) → (bind path p).1.fds ≡ p.fds
unfolding bind
bind-fds path p =
    change_files-fds (not (next_fault p.faults) && not (found (find path p.files)))
      (file path (new_socket p) p.files) p

pub chmod-fds : (path : Bytes) (perm : ℕ) (p : Process) → (chmod path perm p).1.fds ≡ p.fds
unfolding chmod
chmod-fds path perm p =
    change_files-fds (not (next_fault p.faults) && found (find path p.files))
      (set_mode path perm p.clock p.files) p

abbrev pub SameFiles : Process → Process → Type 0
SameFiles p q = (q.files ≡ p.files) × (q.clock ≡ p.clock)

fd_outcome-SameFiles : (fails : Bool) (p : Process) → SameFiles p (fd_outcome fails p).1
unfolding fd_outcome
fd_outcome-SameFiles true p = (refl, refl)
fd_outcome-SameFiles false p = (refl, refl)

pub fd_call-SameFiles : (p : Process) → SameFiles p (fd_call p).1
unfolding fd_call
fd_call-SameFiles p =
    fd_outcome-SameFiles (next_fault p.faults) (record p { faults = later_faults p.faults })
