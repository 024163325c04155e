-- ===== src/NinjaDeps/Total.antt =====
-- The loop of `Read` ends on every input.
use herbarium.Base.{
  ℕ, zero, suc, ◌/◌, ◌%◌, ◌^◌, ◌<◌, ◌≡◌, ◌≢◌, refl, List, [], ◌∷◌, arith, Bytes, length,
  length-drop-le, take, drop, inl, inr, ltb, ◌==◌, ◌||◌, Bool-cases,
}
use herbarium.NinjaDeps.{
  Log, out_of_fuel, Round, stop, next, magic, empty_log, deps_record, path_record, record_at, round,
  records, read_version, read_log,
}
use herbarium.NinjaDeps.Words.{read_u32}

abbrev Ends : Bytes → Round → Type 0
Ends s (stop o) = o ≢ out_of_fuel
Ends s (next log paths rest) = length rest < length s

deps_record-Ends :
    (log : Log) (paths : List Bytes) (size : ℕ) (buf rest s : Bytes)
    → length rest < length s
    → Ends s (deps_record log paths size buf rest)
unfolding deps_record
deps_record-Ends log paths size buf rest s h = ground arith

path_record-Ends :
    (log : Log) (paths : List Bytes) (size : ℕ) (buf rest s : Bytes)
    → length rest < length s
    → Ends s (path_record log paths size buf rest)
unfolding path_record
path_record-Ends log paths size buf rest s h = ground arith

record_at-Ends :
    (log : Log) (paths : List Bytes) (head : ℕ) (rest s : Bytes)
    → length rest < length s
    → Ends s (record_at log paths head rest)
unfolding record_at
record_at-Ends log paths head rest s h =
    let size = head % 2 ^ 31 in
    let shorter : length (drop size rest) < length s = omega (arith, length-drop-le size rest) in
    elim (Bool-cases (ltb size 4 || ltb (2 ^ 24) size)) [
      | inl bad ↦ rw bad (λ e. ground arith)
      | inr good ↦ rw good (elim (Bool-cases (ltb (length rest) size)) [
        | inl cut ↦ rw cut (λ e. ground arith)
        | inr whole ↦ rw whole (elim (Bool-cases (head / 2 ^ 31 % 2 == 1)) [
          | inl d ↦
              rw d (deps_record-Ends log paths size (take size rest) (drop size rest) s shorter)
          | inr p ↦
              rw p (path_record-Ends log paths size (take size rest) (drop size rest) s shorter)
        ])
      ])
    ]

round-Ends : (log : Log) (paths : List Bytes) (s : Bytes) → Ends s (round log paths s)
unfolding round read_u32
round-Ends log paths [] = ground arith
round-Ends log paths (a ∷ []) = ground arith
round-Ends log paths (a ∷ b ∷ []) = ground arith
round-Ends log paths (a ∷ b ∷ c ∷ []) = ground arith
round-Ends log paths (a ∷ b ∷ c ∷ d ∷ s) =
    record_at-Ends log paths _ s (a ∷ b ∷ c ∷ d ∷ s) (omega arith)

records-ends :
    (fuel : ℕ) (log : Log) (paths : List Bytes) (s : Bytes)
    → length s < fuel
    → records fuel log paths s ≢ out_of_fuel
unfolding records
records-ends zero log paths s h = absurd (omega arith)
records-ends (suc fuel) log paths s h =
    go (records-ends fuel) (round log paths s) refl (round-Ends log paths s)
  where
    go :
        ((l : Log) (ps : List Bytes) (t : Bytes)
          → length t < fuel
          → records fuel l ps t ≢ out_of_fuel)
        → (r : Round) → round log paths s ≡ r
        → Ends s r
        → records (suc fuel) log paths s ≢ out_of_fuel
    go later (stop o) e ends = rw (e, records) ends
    go later (next log' paths' rest) e ends = rw (e, records) (later log' paths' rest (omega arith))

read_version-ends : (s : Bytes) → read_version s ≢ out_of_fuel
unfolding read_version read_u32
read_version-ends [] e = ground arith
read_version-ends (a ∷ []) e = ground arith
read_version-ends (a ∷ b ∷ []) e = ground arith
read_version-ends (a ∷ b ∷ c ∷ []) e = ground arith
read_version-ends (a ∷ b ∷ c ∷ d ∷ s) e =
    ground (arith, records-ends (suc (length s)) empty_log [] s (omega arith))

-- `Read` returns on every content of the file.
pub read_log_ends : (s : Bytes) → read_log s ≢ out_of_fuel
unfolding read_log
read_log_ends s e = ground (arith, read_version-ends (drop (length magic) s))
