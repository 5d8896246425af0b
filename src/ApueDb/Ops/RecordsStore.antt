-- ===== src/ApueDb/Ops/RecordsStore.antt =====
-- `db_store` of a new key and the records of the database.
use personal_project.Common.{
  ℕ, ◌+◌, ◌≤◌, ◌≡◌, ap, ◌∙◌, false, List, [], ◌∷◌, ◌++◌, arith, length, length-append,
}
use personal_project.Decimal.{Bytes, padded}
use personal_project.Decimal.RoundTrip.{length-padded}
use personal_project.Posix.Content.{
  write_at, length-write_at, read_at-inside, read_at-write_at_before,
}
use personal_project.ApueDb.State.{newline, ptr_max}
use personal_project.ApueDb.Entry.Fields.{body}
use personal_project.ApueDb.Entry.Read.{HasEntry}
use personal_project.ApueDb.Entry.Written.{HasEntry-before, HasEntry-kept, HasEntry-inside}
use personal_project.ApueDb.Ops.{all_spaces}
use personal_project.ApueDb.Ops.Fetch.{HasData}
use personal_project.ApueDb.Ops.Records.{Records, no_more, live, deleted}

-- Text behind the end of the data file leaves what is there.
HasData-kept :
    {dat : Bytes} {d : ℕ} {text : Bytes} (bytes : Bytes)
    → HasData dat d text
    → HasData (write_at (length dat) bytes dat) d text
HasData-kept {dat} {d} {text} bytes h =
    let n : ℕ = length text + 1 in
    let inside : d + n ≤ length dat =
      read_at-inside d n dat (ap length h.stored ∙ length-append text (newline ∷ []))
        (omega arith) in
    record {
      stored = read_at-write_at_before (length dat) d n bytes dat inside inside ∙ h.stored;
      clean = h.clean;
    }

-- A pointer in front of the records leaves them.
pub Records-before :
    {idx dat : Bytes} {at : ℕ} {recs : List (Bytes × Bytes)} (co x : ℕ)
    → x ≤ ptr_max
    → co + 6 ≤ at
    → at ≤ length idx
    → Records idx dat at recs
    → Records (write_at co (padded 6 x) idx) dat at recs
Records-before {idx} {dat} co x fits room inside (no_more at e) =
    no_more at (
      omega
        (arith, e, length-write_at co (padded 6 x) idx, length-padded 5 x (omega (arith, fits))))
Records-before co x fits room inside (live at p d key text recs e other held rest) =
    live at p d key text recs (HasEntry-before co x fits room e) other held
      (Records-before co x fits (omega arith) (HasEntry-inside e) rest)
Records-before co x fits room inside (deleted at p d n key recs e blank rest) =
    deleted at p d n key recs (HasEntry-before co x fits room e) blank
      (Records-before co x fits (omega arith) (HasEntry-inside e) rest)

-- A record behind the last one and its data behind the last data become the last record.
module _ (idx dat bytes line : Bytes) (p d : ℕ) (key text : Bytes)
    (e : HasEntry (write_at (length idx) bytes idx) (length idx) p key d (length text + 1))
    (size : length bytes ≡ 10 + (length (body key d (length text + 1)) + 1))
    (other : all_spaces key ≡ false) (held : HasData (write_at (length dat) line dat) d text) where
  pub Records-appended :
      {at : ℕ} {recs : List (Bytes × Bytes)}
      → Records idx dat at recs
      → Records
          (write_at (length idx) bytes idx)
          (write_at (length dat) line dat)
          at
          (recs ++ (key, text) ∷ [])
  Records-appended (no_more at same) =
      live at p d key text [] (rw same e) other held
        (no_more _ (omega (arith, same, size, length-write_at (length idx) bytes idx)))
  Records-appended (live at q c k t recs there live_key there_data rest) =
      live at q c k t (recs ++ (key, text) ∷ [])
        (HasEntry-kept (length idx) bytes (HasEntry-inside there) there) live_key
        (HasData-kept line there_data) (Records-appended rest)
  Records-appended (deleted at q c n k recs there blank rest) =
      deleted at q c n k (recs ++ (key, text) ∷ [])
        (HasEntry-kept (length idx) bytes (HasEntry-inside there) there) blank
        (Records-appended rest)
