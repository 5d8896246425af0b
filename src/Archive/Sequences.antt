-- ===== src/Archive/Sequences.antt =====
-- The loops end, and what they have written.
use Prim.Native.Nat.{min}
use personal_project.Common.{
  ℕ, zero, suc, ◌+◌, ◌-◌, ◌*◌, ◌/◌, ◌≤◌, ◌≡◌, refl, ap, ◌∙◌, true, false, Option, some, List, [],
  ltb, drop_nil, arith, Bool-cases, inl, inr, ltb→ge, ltb→lt,
}
use personal_project.Decimal.{Bytes}
use personal_project.Posix.{all_succeed}
use personal_project.Archive.{
  max_len, max_buffer_len, Options, default_options, parse_options, Written, nothing_written, ended,
  write_all, sync_after, sequences, finish, calls_before, write_with, main,
}

-- Every call of `write` for some bytes writes one of them at least, and no more than it is asked for.
abbrev pub MakesProgress : (ℕ → ℕ → Option ℕ) → Type 0
MakesProgress write_some =
    (i n : ℕ) → 1 ≤ n → (k : ℕ) × (write_some i n ≡ some k) × (1 ≤ k) × (k ≤ n)

all_succeed-nil : (n : ℕ) → all_succeed n [] ≡ true
unfolding all_succeed
all_succeed-nil zero = refl
all_succeed-nil (suc n) = all_succeed-nil n

module _ (write_some : ℕ → ℕ → Option ℕ) (progress : MakesProgress write_some) where
  write_all-more :
      (fuel len k : ℕ) (w : Written)
      → write_some w.calls (min len max_buffer_len) ≡ some k
      → ltb k len ≡ true
      → write_all write_some (suc fuel) len w
        ≡ write_all write_some fuel
            (len - k)
            (record w { calls = w.calls + 1; bytes = w.bytes + k })
  unfolding write_all
  write_all-more fuel len k w e more = rw (write_all, e, more)

  write_all-last :
      (fuel len k : ℕ) (w : Written)
      → write_some w.calls (min len max_buffer_len) ≡ some k
      → ltb k len ≡ false
      → write_all write_some (suc fuel) len w
        ≡ ended (record w { calls = w.calls + 1; bytes = w.bytes + k })
  unfolding write_all
  write_all-last fuel len k w e last = rw (write_all, e, last)

  write_all-ended :
      (fuel len : ℕ) (w : Written)
      → 1 ≤ len
      → len ≤ fuel
      → (v : Written) × (write_all write_some fuel len w ≡ ended v)
        × (v.bytes ≡ w.bytes + len)
        × (v.syncs ≡ w.syncs)
  write_all-ended zero len w h enough = absurd (omega arith)
  write_all-ended (suc fuel) len w h enough =
      let (k, e, some_bytes, no_more) = progress w.calls (min len max_buffer_len) (omega arith) in
      elim (Bool-cases (ltb k len)) [
        | inl more ↦
            let (v, e', bytes, syncs) =
              write_all-ended fuel (len - k) (record w { calls = w.calls + 1; bytes = w.bytes + k })
                (omega (arith, ltb→lt k len more)) (omega (arith, some_bytes)) in
            (
              v,
              write_all-more fuel len k w e more ∙ e',
              omega (arith, bytes, ltb→lt k len more),
              syncs,
            )
        | inr last ↦ (
          record w { calls = w.calls + 1; bytes = w.bytes + k },
          write_all-last fuel len k w e last,
          omega (arith, no_more, ltb→ge k len last),
          refl,
        )
      ]

  sequences-next :
      (rounds n : ℕ) (w v : Written)
      → write_all write_some max_len max_len w ≡ ended v
      → sequences write_some (suc rounds) n w
        ≡ sequences write_some rounds (n + 1) (sync_after write_some n v)
  unfolding sequences
  sequences-next rounds n w v e = rw (sequences, e)

  sync_after-bytes : (n : ℕ) (w : Written) → (sync_after write_some n w).bytes ≡ w.bytes
  sync_after-bytes n w = ground arith

  sync_after-syncs :
      (n : ℕ) (w : Written) → (sync_after write_some n w).syncs + (n + 1) / 8 ≡ w.syncs + 1 + n / 8
  sync_after-syncs n w = ground arith

  sequences-ended :
      (rounds n : ℕ) (w : Written)
      → (v : Written) × (sequences write_some rounds n w ≡ ended v)
        × (v.bytes ≡ w.bytes + rounds * max_len)
        × (v.syncs + (n + rounds) / 8 ≡ w.syncs + rounds + n / 8)
  sequences-ended zero n w = (w, unfold sequences in refl, omega arith, omega arith)
  sequences-ended (suc rounds) n w =
      let (u, e, bytes, syncs) = write_all-ended max_len max_len w (omega arith) (omega arith) in
      let next : n + 1 + rounds ≡ n + suc rounds = omega arith in
      let (v, e', all_bytes, all_syncs) =
        sequences-ended rounds (n + 1) (sync_after write_some n u) in
      (
        v,
        sequences-next rounds n w u e ∙ e',
        omega (arith, all_bytes, sync_after-bytes n u, bytes),
        omega (arith, all_syncs, sync_after-syncs n u, syncs, ap (λ i. i / 8) next),
      )

  -- If no call fails, the options are accepted and each call of `write` makes progress, then the
  -- loops end within `MAX_LEN` calls for each sequence, and the program returns 0: it has written
  -- `MAX_LEN` bytes for each sequence, and called `fsync` once at the end and after every sequence
  -- whose number is no multiple of eight.
  pub main-ended :
      (options : List (ℕ × Bytes)) (o : Options)
      → parse_options options default_options ≡ some o
      → (w : Written) × (main write_some [] options ≡ some (0, w))
        × (w.bytes ≡ o.nb_seq * max_len)
        × (w.syncs ≡ o.nb_seq - o.nb_seq / 8 + 1)
  unfolding main finish write_with
  main-ended options o parsed =
      let (v, e, bytes, syncs) = sequences-ended o.nb_seq 0 nothing_written in
      (
        record v { syncs = v.syncs + 1 },
        rw (
          all_succeed-nil 7,
          parsed,
          all_succeed-nil (calls_before write_some o),
          e,
          drop_nil (calls_before write_some o),
          all_succeed-nil 4,
        ),
        omega (arith, bytes),
        omega (arith, syncs),
      )
