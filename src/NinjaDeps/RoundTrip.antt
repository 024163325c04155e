-- ===== src/NinjaDeps/RoundTrip.antt =====
-- `Read` of what ninja wrote, also where the last record was cut off.
use herbarium.Base.{
  ℕ, zero, suc, ◌+◌, ◌-◌, ◌*◌, ◌%◌, ◌^◌, ◌≤◌, ◌<◌, ◌≡◌, refl, sym, ◌∙◌, false, List, [], ◌∷◌, ◌++◌,
  arith, Bytes, length, length-append, length-take-le, take, drop, take-length-append,
  drop-length-append, get_elem?, list_eq, nat_eq, append_assoc, subst, ◌==◌, inl, inr, not, ◌||◌,
  ltb, Option-cases,
}
use herbarium.NinjaDeps.{
  Log, Outcome, read, stop, next, magic, empty_log, supported_version, strip_nuls, deps_record,
  path_record, record_at, round, records, read_version, read_log,
}
use herbarium.NinjaDeps.Format.{
  Entry, path, deps, padded, body, head_word, encode, count_after, encode_all, IsWritable,
  AllWritable, paths_after, log_after, replay, strip_nuls-padded, length-body, length-deps_body,
}
use herbarium.NinjaDeps.Inputs.{path_number-none, path_number-some, inputs-numbered}
use herbarium.NinjaDeps.Words.{word, le32, u32-le32, words, words-le32s, read_u32, u32_at}

read_u32-le32 : (n : ℕ) (s : Bytes) → n < 2 ^ 32 → read_u32 (le32 n ++ s) ≡ word n s
unfolding read_u32
read_u32-le32 n s h = rw (u32-le32 n h)

u32_at-le32 : (n : ℕ) (s : Bytes) → n < 2 ^ 32 → u32_at (le32 n ++ s) ≡ n
unfolding u32_at
u32_at-le32 n s h = rw (u32-le32 n h)

module _ (log : Log) (paths : List Bytes) (b rest : Bytes) where
  record_at_deps :
      4 ≤ length b
      → length b ≤ 2 ^ 24
      → record_at log paths (2 ^ 31 + length b) (b ++ rest)
        ≡ deps_record log paths (length b) b rest
  unfolding record_at
  record_at_deps low high =
      let size : (2 ^ 31 + length b) % 2 ^ 31 ≡ length b = omega arith in
      rw size
        (ground (arith, length-append b rest, take-length-append b rest, drop-length-append b rest))

  record_at_path :
      4 ≤ length b
      → length b ≤ 2 ^ 24
      → record_at log paths (length b) (b ++ rest) ≡ path_record log paths (length b) b rest
  unfolding record_at
  record_at_path low high =
      let size : length b % 2 ^ 31 ≡ length b = omega arith in
      rw size
        (ground (arith, length-append b rest, take-length-append b rest, drop-length-append b rest))

module _ (log : Log) (paths : List Bytes) (size : ℕ) (buf rest : Bytes) where
  deps_record_of :
      (k out : ℕ) (ids : List ℕ)
      → size ≡ 12 + 4 * k
      → u32_at buf ≡ out
      → words (drop 12 buf) ≡ ids
      → deps_record log paths size buf rest
        ≡ next (log_after log paths (deps out 0 0 ids)) paths rest
  unfolding deps_record
  deps_record_of k out ids e o w =
      let well : (ltb size 12 || not ((size - 12) % 4 == 0)) ≡ false = ground arith in
      rw (well, o)
        (elim (Option-cases (get_elem? paths out)) [
          | inl unknown ↦ rw (unknown, path_number-none paths out unknown) refl
          | inr (p, known) ↦
              rw (known, w, inputs-numbered paths ids, path_number-some paths out p known) refl
        ])

  path_record_of :
      (raw : Bytes)
      → strip_nuls (take (size - 4) buf) ≡ raw
      → u32_at (drop (size - 4) buf) ≡ 2 ^ 32 - 1 - length paths
      → length paths < 2 ^ 32
      → path_record log paths size buf rest ≡ next log (paths ++ raw ∷ []) rest
  unfolding path_record
  path_record_of raw r c few =
      let small : length paths % 2 ^ 32 ≡ length paths = omega arith in
      rw (r, c, small) (ground arith)

round_of_head :
    (log : Log) (paths : List Bytes) (h : ℕ) (s : Bytes)
    → h < 2 ^ 32
    → round log paths (le32 h ++ s) ≡ record_at log paths h s
unfolding round
round_of_head log paths h s small = rw (read_u32-le32 h s small, round)

-- One round reads one record that ninja wrote.
round-encode :
    (log : Log) (paths : List Bytes) (e : Entry) (rest : Bytes)
    → IsWritable (length paths) e
    → round log paths (encode (length paths) e ++ rest)
      ≡ next (log_after log paths e) (paths_after paths e) rest
round-encode log paths (path p) rest h =
    let b = body (length paths) (path p) in
    let (low, high) = length-body (length paths) (path p) h in
    let few : length paths < 2 ^ 32 = h.2 in
    let size : length b - 4 ≡ length (padded p) =
      omega (arith, length-append (padded p) (le32 (2 ^ 32 - 1 - length paths))) in
    round_of_head log paths (length b) (b ++ rest) (omega arith)
    ∙ record_at_path log paths b rest low high
    ∙ path_record_of log paths (length b) b rest p
        (rw (size, take-length-append (padded p) (le32 (2 ^ 32 - 1 - length paths)))
          (strip_nuls-padded p h.0))
        (rw (size, drop-length-append (padded p) (le32 (2 ^ 32 - 1 - length paths)))
          (u32_at-le32 (2 ^ 32 - 1 - length paths) [] (omega arith)))
        few
round-encode log paths (deps out l m ids) rest h =
    let e = deps out l m ids in
    let b = body (length paths) e in
    let (low, high) = length-body (length paths) e h in
    round_of_head log paths (2 ^ 31 + length b) (b ++ rest) (omega arith)
    ∙ record_at_deps log paths b rest low high
    ∙ deps_record_of log paths (length b) b rest (length ids) out ids
        (length-deps_body (length paths) out l m ids) (u32_at-le32 out _ h.0) (words-le32s ids h.3)

records_next :
    (fuel : ℕ) (log log' : Log) (paths paths' : List Bytes) (s rest : Bytes)
    → round log paths s ≡ next log' paths' rest
    → records (suc fuel) log paths s ≡ records fuel log' paths' rest
unfolding records
records_next fuel log log' paths paths' s rest e = rw (e, records)

records_stop :
    (fuel : ℕ) (log : Log) (paths : List Bytes) (s : Bytes) (o : Outcome)
    → round log paths s ≡ stop o
    → 0 < fuel
    → records fuel log paths s ≡ o
unfolding records
records_stop zero log paths s o e h = absurd (omega arith)
records_stop (suc fuel) log paths s o e h = rw (e, records)

length-paths_after :
    (paths : List Bytes) (e : Entry) → count_after (length paths) e ≡ length (paths_after paths e)
length-paths_after paths (path p) = omega (arith, length-append paths (p ∷ []))
length-paths_after paths (deps _ _ _ _) = refl

-- What stands behind the last whole record, and ends the loop.
abbrev IsTail : Bytes → Type 0
IsTail s = (log : Log) (paths : List Bytes) → round log paths s ≡ stop (read log)

-- The fuel that a run needs is bounded by the bytes that are left.
records-encode_all :
    (es : List Entry) (fuel : ℕ) (log : Log) (paths : List Bytes) (tail : Bytes)
    → AllWritable (length paths) es
    → IsTail tail
    → length (encode_all (length paths) es ++ tail) < fuel
    → records fuel log paths (encode_all (length paths) es ++ tail) ≡ read (replay log paths es)
records-encode_all [] fuel log paths tail h ends enough =
    records_stop fuel log paths tail _ (ends log paths) (omega arith)
records-encode_all (e ∷ es) zero log paths tail h ends enough = absurd (omega arith)
records-encode_all (e ∷ es) (suc fuel) log paths tail (h, hs) ends enough =
    let n = count_after (length paths) e in
    let rest = encode_all n es ++ tail in
    let same = length-paths_after paths e in
    rw (append_assoc (encode (length paths) e) (encode_all n es) tail) (
      records_next fuel log _ paths _ _ rest (round-encode log paths e rest h)
      ∙ subst
          (λ m.
            records fuel (log_after log paths e) (paths_after paths e) (encode_all m es ++ tail)
            ≡ read (replay log paths (e ∷ es)))
          (sym same)
          (records-encode_all es fuel (log_after log paths e) (paths_after paths e) tail
            (subst (λ m. AllWritable m es) same hs) ends
            (subst (λ m. length (encode_all m es ++ tail) < fuel) same
              (omega (
                arith,
                length-append (encode (length paths) e ++ encode_all n es) tail,
                length-append (encode (length paths) e) (encode_all n es),
                length-append (encode_all n es) tail,
              )))))

IsTail-nil : IsTail []
unfolding round read_u32
IsTail-nil log paths = refl

head_word_size :
    (n : ℕ) (e : Entry)
    → IsWritable n e
    → (head_word n e < 2 ^ 32) × (head_word n e % 2 ^ 31 ≡ length (body n e))
head_word_size n (path p) h =
    let (low, high) = length-body n (path p) h in (omega arith, omega arith)
head_word_size n (deps out l m ids) h =
    let (low, high) = length-body n (deps out l m ids) h in (omega arith, omega arith)

record_at_short :
    (log : Log) (paths : List Bytes) (head : ℕ) (rest : Bytes)
    → length rest < head % 2 ^ 31
    → record_at log paths head rest ≡ stop (read log)
unfolding record_at
record_at_short log paths head rest h = ground arith

-- a record of which only the first `k` bytes were written
IsTail-take :
    (n k : ℕ) (e : Entry) → IsWritable n e → k < length (encode n e) → IsTail (take k (encode n e))
unfolding round read_u32
IsTail-take n zero e h lt log paths = refl
IsTail-take n (suc zero) e h lt log paths = refl
IsTail-take n (suc (suc zero)) e h lt log paths = refl
IsTail-take n (suc (suc (suc zero))) e h lt log paths = refl
IsTail-take n (suc (suc (suc (suc k)))) e h lt log paths =
    let (small, size) = head_word_size n e h in
    round_of_head log paths (head_word n e) (take k (body n e)) small
    ∙ record_at_short log paths (head_word n e) (take k (body n e))
        (omega (arith, length-take-le k (body n e), size))

-- a whole file: the header, and the records
abbrev pub file : List Entry → Bytes
file es = magic ++ le32 supported_version ++ encode_all 0 es

read_log-records :
    (s : Bytes)
    → read_log (magic ++ le32 supported_version ++ s) ≡ records (suc (length s)) empty_log [] s
unfolding read_log read_version read_u32
read_log-records s = ground arith

-- `Read` of a log that ninja wrote gives the state that its records stand for, in their order: a path
-- record registers the next path, and a deps record sets the inputs of its output, replacing those
-- before, to the paths that have the numbers it gives, but for the numbers that no path has. If the
-- file ends within a record, of which the first `k` bytes are there, that record alone is lost.
pub read_log-file :
    (es : List Entry) (last : Entry) (k n : ℕ)
    → AllWritable 0 es
    → IsWritable n last
    → k < length (encode n last)
    → read_log (file es ++ take k (encode n last)) ≡ read (replay empty_log [] es)
read_log-file es last k n h hl lt =
    read_log-records (encode_all 0 es ++ take k (encode n last))
    ∙ records-encode_all es _ empty_log [] _ h (IsTail-take n k last hl lt) (omega arith)
