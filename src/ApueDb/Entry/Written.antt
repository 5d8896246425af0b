-- ===== src/ApueDb/Entry/Written.antt =====
-- What is in the index file after a write: a record or a pointer that was written, and one that the
-- write does not meet.
use personal_project.ApueDb.Entry.Write.{HasPointer, entry_bytes}
use personal_project.Common.{
  ℕ, ◌+◌, ◌≤◌, ◌<◌, ◌≡◌, sym, ap, ◌∙◌, [], ◌∷◌, ◌++◌, append-nil, append_assoc, arith, length,
  length-append,
}
use personal_project.Decimal.{Bytes, padded}
use personal_project.Decimal.RoundTrip.{length-padded}
use personal_project.Posix.Content.{
  write_at, read_at-write_at, read_at-write_at_part, read_at-write_at_behind,
  read_at-write_at_before, read_at-inside,
}
use personal_project.ApueDb.State.{newline, ptr_max, idxlen_min, idxlen_max, datlen_max}
use personal_project.ApueDb.Entry.Fields.{IsKey, body}
use personal_project.ApueDb.Entry.Read.{HasEntry, header_length}

pub length-entry_bytes :
    (p : ℕ) (key : Bytes) (d n : ℕ)
    → p ≤ ptr_max
    → length (body key d n) + 1 < 10000
    → length (entry_bytes p key d n) ≡ 10 + (length (body key d n) + 1)
length-entry_bytes p key d n fits small =
    let len : ℕ = length (body key d n) + 1 in
    let line : Bytes = body key d n ++ newline ∷ [] in
    omega (
      arith,
      length-append (padded 6 p) (padded 4 len ++ line),
      length-append (padded 4 len) line,
      length-append (body key d n) (newline ∷ []),
      length-padded 5 p (omega arith),
      length-padded 3 len (omega arith),
    )

-- A record that was written is there.
pub HasEntry-written :
    (idx : Bytes) (at p : ℕ) (key : Bytes) (d n : ℕ)
    → p ≤ ptr_max
    → idxlen_min ≤ length (body key d n) + 1
    → length (body key d n) + 1 ≤ idxlen_max
    → IsKey key
    → 0 < n
    → n ≤ datlen_max
    → HasEntry (write_at at (entry_bytes p key d n) idx) at p key d n
HasEntry-written idx at p key d n fits low high clean some_data data_fits =
    let len : ℕ = length (body key d n) + 1 in
    let front : Bytes = padded 6 p ++ padded 4 len in
    let line : Bytes = body key d n ++ newline ∷ [] in
    let ten : length front ≡ 10 = header_length p len fits (omega arith) in
    record {
      header =
          rw (← append_assoc (padded 6 p) (padded 4 len) line)
            (read_at-write_at_part at at 10 [] front line idx (omega arith) (sym ten));
      text =
          rw (← append_assoc (padded 6 p) (padded 4 len) line, ← append-nil (front ++ line))
            (read_at-write_at_part at (at + 10) len front line [] idx (omega (arith, ten))
              (sym (length-append (body key d n) (newline ∷ []))));
      pointer_fits = fits;
      length_min = low;
      length_fits = high;
      clean = clean;
      some_data = some_data;
      data_fits = data_fits;
    }

-- A pointer that is written in front of a record leaves it as it is.
pub HasEntry-before :
    {idx : Bytes} {at p : ℕ} {key : Bytes} {d n : ℕ} (co x : ℕ)
    → x ≤ ptr_max
    → co + 6 ≤ at
    → HasEntry idx at p key d n
    → HasEntry (write_at co (padded 6 x) idx) at p key d n
HasEntry-before {idx} {at} {p} {key} {d} {n} co x fits room e =
    let six : length (padded 6 x) ≡ 6 = length-padded 5 x (omega arith) in
    record {
      header = read_at-write_at_behind co at 10 (padded 6 x) idx (omega (arith, six)) ∙ e.header;
      text =
          read_at-write_at_behind co (at + 10) (length (body key d n) + 1) (padded 6 x) idx
            (omega (arith, six))
          ∙ e.text;
      pointer_fits = e.pointer_fits;
      length_min = e.length_min;
      length_fits = e.length_fits;
      clean = e.clean;
      some_data = e.some_data;
      data_fits = e.data_fits;
    }

pub HasPointer-written :
    (idx : Bytes) (at p : ℕ) → p ≤ ptr_max → HasPointer (write_at at (padded 6 p) idx) at p
HasPointer-written idx at p fits = record {
  fits = fits;
  text = read_at-write_at at 6 (padded 6 p) idx (sym (length-padded 5 p (omega arith)));
}

-- A pointer that ends before a write stays.
pub HasPointer-kept :
    {idx : Bytes} {at p : ℕ} (w : ℕ) (bytes : Bytes)
    → at + 6 ≤ w
    → at + 6 ≤ length idx
    → HasPointer idx at p
    → HasPointer (write_at w bytes idx) at p
HasPointer-kept {idx} {at} {p} w bytes room inside h = record {
  fits = h.fits;
  text = read_at-write_at_before w at 6 bytes idx room inside ∙ h.text;
}

-- A record lies inside the file.
pub HasEntry-inside :
    {idx : Bytes} {at p : ℕ} {key : Bytes} {d n : ℕ}
    → HasEntry idx at p key d n
    → at + 10 + (length (body key d n) + 1) ≤ length idx
HasEntry-inside {idx} {at} {p} {key} {d} {n} e =
    let len : ℕ = length (body key d n) + 1 in
    let size = length-append (body key d n) (newline ∷ []) in
    read_at-inside (at + 10) len idx (ap length e.text ∙ size) (omega arith)

-- A record that ends before a write stays.
pub HasEntry-kept :
    {idx : Bytes} {at p : ℕ} {key : Bytes} {d n : ℕ} (w : ℕ) (bytes : Bytes)
    → at + 10 + (length (body key d n) + 1) ≤ w
    → HasEntry idx at p key d n
    → HasEntry (write_at w bytes idx) at p key d n
HasEntry-kept {idx} {at} {p} {key} {d} {n} w bytes room e =
    let len : ℕ = length (body key d n) + 1 in
    let inside = HasEntry-inside e in
    record {
      header = read_at-write_at_before w at 10 bytes idx (omega arith) (omega arith) ∙ e.header;
      text = read_at-write_at_before w (at + 10) len bytes idx (omega arith) (omega arith) ∙ e.text;
      pointer_fits = e.pointer_fits;
      length_min = e.length_min;
      length_fits = e.length_fits;
      clean = e.clean;
      some_data = e.some_data;
      data_fits = e.data_fits;
    }
