-- ===== src/ApueDb/Frame/Walks.antt =====
-- The walks along the chains read the files and leave the locks and the handle's place as they are.
use personal_project.Common.{ℕ, zero, suc, Bool, Option, none, some, arith}
use personal_project.Decimal.{Bytes, ℤ}
use personal_project.ApueDb.Entry.{
  readptr, readidx, readdat, set_idxbuf, numbers, third_separator, second_separator,
  first_separator, split_record, read_record, read_header, read_data,
}
use personal_project.ApueDb.Chain.{search_chain, find_and_lock, search_free}
use personal_project.ApueDb.Frame.{
  kept, same_files, Keeps, Keeps-modify, keeps_rules, SameFiles-set_lock, SameFiles-Kept,
}

pub Keeps-readptr : (offset : ℤ) → Keeps kept (readptr offset)
unfolding readptr
Keeps-readptr offset = search keeps_rules

Keeps-set_idxbuf : (b : Bytes) → Keeps kept (set_idxbuf b)
unfolding set_idxbuf
Keeps-set_idxbuf b = Keeps-modify _ (λ s. ground arith)

Keeps-numbers : (ptr1 ptr2 : Bytes) → Keeps kept (numbers ptr1 ptr2)
unfolding numbers
Keeps-numbers ptr1 ptr2 = search keeps_rules depth 9

Keeps-third_separator :
    (ptr1 ptr2 : Bytes) (o : Option (Bytes × Bytes)) → Keeps kept (third_separator ptr1 ptr2 o)
unfolding third_separator
Keeps-third_separator ptr1 ptr2 none = Keeps-numbers ptr1 ptr2
Keeps-third_separator ptr1 ptr2 (some _) = search keeps_rules

Keeps-second_separator :
    (key : Bytes) (o : Option (Bytes × Bytes)) → Keeps kept (second_separator key o)
unfolding second_separator
Keeps-second_separator key none = search keeps_rules
Keeps-second_separator key (some (offset, ptr2)) =
    search (keeps_rules, Keeps-set_idxbuf, Keeps-third_separator)

Keeps-first_separator : (o : Option (Bytes × Bytes)) → Keeps kept (first_separator o)
unfolding first_separator
Keeps-first_separator none = search keeps_rules
Keeps-first_separator (some (key, ptr1)) =
    search (keeps_rules, Keeps-set_idxbuf, Keeps-second_separator)

Keeps-split_record : (len : ℕ) → Keeps kept (split_record len)
unfolding split_record
Keeps-split_record len = search (keeps_rules, Keeps-set_idxbuf, Keeps-first_separator) depth 8

Keeps-read_record : (len : ℕ) (o : Option Bytes) → Keeps kept (read_record len o)
unfolding read_record
Keeps-read_record len none = search keeps_rules
Keeps-read_record len (some bytes) = search (keeps_rules, Keeps-split_record)

Keeps-read_header : (o : Option Bytes) → Keeps kept (read_header o)
unfolding read_header
Keeps-read_header none = search keeps_rules
Keeps-read_header (some bytes) = search (keeps_rules, Keeps-read_record) depth 12

pub Keeps-readidx : (offset : ℤ) → Keeps kept (readidx offset)
unfolding readidx
Keeps-readidx offset = search (keeps_rules, Keeps-read_header) depth 12

Keeps-out_of_fuel : {A : Type 0} → Keeps kept {A = A} (λ _. none)
Keeps-out_of_fuel = record { at = λ s. tt }

pub Keeps-search_chain :
    (fuel : ℕ) (key : Bytes) (offset : ℤ) → Keeps kept (search_chain fuel key offset)
unfolding search_chain
Keeps-search_chain zero key offset = Keeps-out_of_fuel
Keeps-search_chain (suc fuel) key offset =
    search (keeps_rules, Keeps-readidx, Keeps-search_chain fuel) depth 9

pub Keeps-search_free :
    (fuel keylen datlen : ℕ) (saveoffset offset : ℤ)
    → Keeps kept (search_free fuel keylen datlen saveoffset offset)
unfolding search_free
Keeps-search_free zero keylen datlen saveoffset offset = Keeps-out_of_fuel
Keeps-search_free (suc fuel) keylen datlen saveoffset offset =
    search (keeps_rules, Keeps-readidx, Keeps-search_free fuel) depth 9

Keeps-read_data : (len : ℕ) (o : Option Bytes) → Keeps kept (read_data len o)
unfolding read_data
Keeps-read_data len none = search keeps_rules
Keeps-read_data len (some bytes) = search keeps_rules depth 12

pub Keeps-readdat : Keeps kept readdat
unfolding readdat
Keeps-readdat = search (keeps_rules, Keeps-read_data) depth 12

pub SameFiles-find_and_lock :
    (fuel : ℕ) (key : Bytes) (writelock : Bool)
    → Keeps same_files (find_and_lock fuel key writelock)
unfolding find_and_lock
SameFiles-find_and_lock fuel key writelock =
    search (keeps_rules, SameFiles-set_lock, SameFiles-Kept, Keeps-readptr, Keeps-search_chain)
      depth 12
