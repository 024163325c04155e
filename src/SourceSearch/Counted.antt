-- ===== src/SourceSearch/Counted.antt =====
-- The count of `searchInBlob` is that of all matches, whatever the cap on the rows.
use herbarium.Base.{
  ℕ, zero, suc, ◌+◌, ◌-◌, ◌≤◌, ◌<◌, ◌≡◌, refl, sym, ap, ◌∙◌, inl, inr, arith, true, false, List, [],
  ◌∷◌, ◌++◌, map, Option, none, some, Bytes, if◌then◌else◌, leb, ltb, Bool-cases, take, drop,
  length, length-append, append-nil, append_assoc,
}
use herbarium.SourceView.{lines_of}
use herbarium.SourceSearch.{
  Hit, Search, Scan, SearchMatch, record_hit, regex_loop, search_with, line_loop, search_in_blob,
  build_search_match, search_source_scan_limit,
}
use herbarium.SourceSearch.Literal.{literal_hits, recorded, literal_loop-recorded}

abbrev regex_hit : ℕ → Bytes → ℕ × ℕ → Hit
regex_hit line_num line (from, to) = record {
  line = line_num;
  column = from + 1;
  text = take (to - from) (drop from line);
}

abbrev hits_with : Option (Bytes → List (ℕ × ℕ)) → Search → ℕ → Bytes → List Hit
hits_with (some f) q line_num line = map (regex_hit line_num line) (f line)
hits_with none q line_num line =
    literal_hits q.pattern (suc (length line + search_source_scan_limit)) line_num line 0

-- every match in the lines, the first of which has the number `line_num`
unfoldable pub hits_from : Search → ℕ → List Bytes → List Hit
hits_from q line_num [] = []
hits_from q line_num (line ∷ lines) =
    hits_with q.find_all q line_num line ++ hits_from q (suc line_num) lines

abbrev pub all_hits : Search → List Hit
all_hits q = hits_from q 1 (lines_of q.content)

abbrev pub row_of : Search → Hit → SearchMatch
row_of q h = build_search_match q h.line h.column h.text

regex_loop-recorded :
    (q : Search) (line_num : ℕ) (line : Bytes) (s : Scan) (hs : List (ℕ × ℕ))
    → regex_loop q line_num line s hs ≡ recorded q s (map (regex_hit line_num line) hs)
unfolding regex_loop recorded
regex_loop-recorded q line_num line s [] = refl
regex_loop-recorded q line_num line s ((from, to) ∷ hs) =
    let t : Scan = record_hit q s (regex_hit line_num line (from, to)) in
    ap (λ r. if t.full then t else r) (regex_loop-recorded q line_num line t hs)

pub search_with-recorded :
    (o : Option (Bytes → List (ℕ × ℕ))) (q : Search) (line_num : ℕ) (line : Bytes) (s : Scan)
    → search_with o q line_num line s ≡ recorded q s (hits_with o q line_num line)
search_with-recorded (some f) q line_num line s = regex_loop-recorded q line_num line s (f line)
search_with-recorded none q line_num line s =
    literal_loop-recorded q (suc (length line + search_source_scan_limit)) line_num line 0 s

-- a scan that is full stays as it is
abbrev unless_full : Scan → Scan → Scan
unless_full s r = if s.full then s else r

stopped : (s r : Scan) → s.full ≡ true → unless_full s r ≡ s
stopped s r h = rw h refl

going : (s r : Scan) → s.full ≡ false → unless_full s r ≡ r
going s r h = rw h refl

going_on : (s x y : Scan) → (s.full ≡ false → x ≡ y) → unless_full s x ≡ unless_full s y
going_on s x y h = elim (Bool-cases s.full) [
  | inl stop ↦ stopped s x stop ∙ sym (stopped s y stop)
  | inr on ↦ going s x on ∙ h on ∙ sym (going s y on)
]

recorded-append :
    (q : Search) (hs gs : List Hit) (s : Scan)
    → s.full ≡ false
    → recorded q s (hs ++ gs) ≡ unless_full (recorded q s hs) (recorded q (recorded q s hs) gs)
unfolding recorded
recorded-append q [] gs s h = sym (going s (recorded q s gs) h)
recorded-append q (x ∷ hs) gs s h =
    let t : Scan = record_hit q s x in
    let f : Scan → Scan = λ y. unless_full y (recorded q y gs) in
    elim (Bool-cases t.full) [
      | inl stop ↦
          stopped t (recorded q t (hs ++ gs)) stop
          ∙ sym (ap f (stopped t (recorded q t hs) stop) ∙ stopped t (recorded q t gs) stop)
      | inr on ↦
          going t (recorded q t (hs ++ gs)) on
          ∙ recorded-append q hs gs t on
          ∙ sym (ap f (going t (recorded q t hs) on))
    ]

line_loop-recorded :
    (q : Search) (lines : List Bytes) (line_num : ℕ) (s : Scan)
    → s.full ≡ false
    → line_loop q line_num s lines ≡ recorded q s (hits_from q line_num lines)
unfolding line_loop hits_from recorded
line_loop-recorded q [] line_num s h = refl
line_loop-recorded q (line ∷ lines) line_num s h =
    let hs : List Hit = hits_with q.find_all q line_num line in
    let r : Scan = recorded q s hs in
    let gs : List Hit = hits_from q (suc line_num) lines in
    ap (λ y. unless_full y (line_loop q (suc line_num) y lines))
      (search_with-recorded q.find_all q line_num line s)
    ∙ going_on r (line_loop q (suc line_num) r lines) (recorded q r gs)
        (line_loop-recorded q lines (suc line_num) r)
    ∙ sym (recorded-append q hs gs s h)

unfoldable pub fill {ℓ} : {A : Type ℓ} → ℕ → List A → List A → List A
fill limit m rows = m ++ take (limit - length m) rows

-- one row more, if there is room for it
fill_step {ℓ} :
    {A : Type ℓ} (limit : ℕ) (m : List A) (r : A) (rows : List A)
    → fill limit (if ltb (length m) limit then m ++ r ∷ [] else m) rows ≡ fill limit m (r ∷ rows)
unfolding fill
fill_step limit m r rows = elim (Bool-cases (ltb (length m) limit)) [
  | inl room ↦
      let size : length (m ++ r ∷ []) ≡ length m + 1 = length-append m (r ∷ []) in
      let less : limit - length m ≡ suc (limit - (length m + 1)) = ground arith in
      rw (room, size, less) (append_assoc m (r ∷ []) (take (limit - (length m + 1)) rows))
  | inr out ↦ let nothing : limit - length m ≡ 0 = ground arith in rw (out, nothing) refl
]

append_take_nil {ℓ} : {A : Type ℓ} (m : List A) (n : ℕ) → m ++ take n [] ≡ m
append_take_nil m zero = append-nil m
append_take_nil m (suc n) = append-nil m

record_hit-n : (q : Search) (s : Scan) (x : Hit) → (record_hit q s x).n ≡ suc s.n
unfolding record_hit
record_hit-n q s x = refl

record_hit-at :
    (q : Search) (s : Scan) (x : Hit)
    → (record_hit q s x).full ≡ leb search_source_scan_limit (q.total + suc s.n)
unfolding record_hit
record_hit-at q s x = refl

record_hit-matches :
    (q : Search) (s : Scan) (x : Hit) (rows : List SearchMatch)
    → fill q.limit (record_hit q s x).matches rows ≡ fill q.limit s.matches (row_of q x ∷ rows)
unfolding record_hit
record_hit-matches q s x rows = fill_step q.limit s.matches (row_of q x) rows

true_ne : true ≡ false → ⊥
true_ne e = cc

-- where nothing stopped the scan, every match counts, and the rows are filled up to the limit
pub recorded_through :
    (q : Search) (hs : List Hit) (s : Scan)
    → (recorded q s hs).full ≡ false
    → ((recorded q s hs).n ≡ s.n + length hs)
      × ((recorded q s hs).matches ≡ fill q.limit s.matches (map (row_of q) hs))
unfolding recorded fill
recorded_through q [] s unstopped =
    (omega arith, sym (append_take_nil s.matches (q.limit - length s.matches)))
recorded_through q (x ∷ hs) s unstopped =
    let t : Scan = record_hit q s x in
    let n : t.n ≡ suc s.n = record_hit-n q s x in
    elim (Bool-cases t.full) [
      | inl stop ↦
          let e : recorded q s (x ∷ hs) ≡ t = stopped t (recorded q t hs) stop in
          absurd (true_ne (sym stop ∙ sym (ap (λ y. y.full) e) ∙ unstopped))
      | inr on ↦
          let e : recorded q s (x ∷ hs) ≡ recorded q t hs = going t (recorded q t hs) on in
          let (a, c) = recorded_through q hs t (sym (ap (λ y. y.full) e) ∙ unstopped) in
          (
            ap (λ y. y.n) e ∙ omega (arith, a, n),
            ap (λ y. y.matches) e ∙ c ∙ record_hit-matches q s x (map (row_of q) hs),
          )
    ]

-- at the ceiling the scan stops, with exactly as many matches
recorded_ceiling :
    (q : Search) (hs : List Hit) (s : Scan)
    → q.total + s.n < search_source_scan_limit
    → search_source_scan_limit ≤ q.total + s.n + length hs
    → ((recorded q s hs).full ≡ true) × (q.total + (recorded q s hs).n ≡ search_source_scan_limit)
unfolding recorded
recorded_ceiling q [] s below above = absurd (ground arith)
recorded_ceiling q (x ∷ hs) s below above =
    let t : Scan = record_hit q s x in
    let n : t.n ≡ suc s.n = record_hit-n q s x in
    let is_full : t.full ≡ leb search_source_scan_limit (q.total + suc s.n) = record_hit-at q s x in
    elim (Bool-cases t.full) [
      | inl stop ↦
          let e : recorded q s (x ∷ hs) ≡ t = stopped t (recorded q t hs) stop in
          (ap (λ y. y.full) e ∙ stop, ap (λ y. q.total + y.n) e ∙ ground (arith, n, is_full))
      | inr on ↦
          let e : recorded q s (x ∷ hs) ≡ recorded q t hs = going t (recorded q t hs) on in
          let (a, b) =
            recorded_ceiling q hs t (ground (arith, n, is_full)) (omega (arith, n, above)) in
          (ap (λ y. y.full) e ∙ a, ap (λ y. q.total + y.n) e ∙ b)
    ]

pub search_in_blob-recorded :
    (q : Search) (matches : List SearchMatch)
    → search_in_blob q matches
      ≡ recorded q (record { matches = matches; n = 0; full = false }) (all_hits q)
unfolding search_in_blob
search_in_blob-recorded q matches =
    line_loop-recorded q (lines_of q.content) 1 (record { matches = matches; n = 0; full = false })
      refl

-- Where the matches reach the ceiling the scan says so, and it has then as many as the ceiling.
search_in_blob-ceiling :
    (q : Search) (matches : List SearchMatch)
    → q.total < search_source_scan_limit
    → search_source_scan_limit ≤ q.total + length (all_hits q)
    → ((search_in_blob q matches).full ≡ true)
      × (q.total + (search_in_blob q matches).n ≡ search_source_scan_limit)
search_in_blob-ceiling q matches below above =
    let s : Scan = record { matches = matches; n = 0; full = false } in
    let e : search_in_blob q matches ≡ recorded q s (all_hits q) =
      search_in_blob-recorded q matches in
    let (a, b) = recorded_ceiling q (all_hits q) s (omega (arith, below)) (omega (arith, above)) in
    (ap (λ y. y.full) e ∙ a, ap (λ y. q.total + y.n) e ∙ b)
