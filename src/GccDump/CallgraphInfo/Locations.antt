-- ===== src/GccDump/CallgraphInfo/Locations.antt =====
-- The location at the end of a label: `path:line:col`, where the path may hold colons of its own.
use herbarium.Base.{
  ℕ, ◌+◌, ◌<◌, ◌≡◌, refl, ◌∙◌, inl, inr, arith, Bool, true, false, not, [], ◌∷◌, ◌++◌, Option, none,
  some, Bytes, codes, ◌==◌, if◌then◌else◌, Bool-cases, length, is_digit, span, some_of, after,
  ◌>>=◌,
}
use herbarium.GccDump.CgraphDump.{atoi}
use herbarium.GccDump.CgraphDump.Targets.{all_of, span-append}
use herbarium.GccDump.CallgraphInfo.{FileLocation, at_end, location_tail, file_location}

abbrev colons : Bytes → ℕ
colons [] = 0
colons (c ∷ s) = (if c == b':' then 1 else 0) + colons s

colons-append : (s t : Bytes) → colons (s ++ t) ≡ colons s + colons t
colons-append [] t = omega arith
colons-append (c ∷ s) t = omega (arith, colons-append s t)

digit_no_colon : (c : ℕ) → is_digit c ≡ true → (c == b':') ≡ false
digit_no_colon c h = ground arith

colons-span : (s : Bytes) → colons (span is_digit s).1 ≡ colons s
colons-span [] = refl
colons-span (c ∷ s) = elim (Bool-cases (is_digit c)) [
  | inl digit ↦ rw (digit, digit_no_colon c digit) (colons-span s ∙ omega arith)
  | inr other ↦ rw other refl
]

at_end-none : (line column s : Bytes) → 0 < colons s → at_end line column s ≡ none
at_end-none line column [] h = absurd (omega arith)
at_end-none line column (c ∷ s) h = refl

abbrev column_here : Bytes → Bytes → Option FileLocation
column_here line u = do column ← some_of is_digit u; at_end line column.0 column.1

column_here-none : (line s : Bytes) → 0 < colons s → column_here line s ≡ none
column_here-none line [] h = refl
column_here-none line (c ∷ s) h = elim (Bool-cases (is_digit c)) [
  | inl digit ↦
      let left : colons (span is_digit s).1 ≡ colons s = colons-span s in
      rw digit (
        at_end-none line (c ∷ (span is_digit s).0) (span is_digit s).1
          (ground (arith, left, digit_no_colon c digit)))
  | inr other ↦ rw other refl
]

abbrev behind_line : Bytes → Bytes → Option FileLocation
behind_line line s = do u ← after (codes ":") s; column_here line u

behind_line-none : (line s : Bytes) → 1 < colons s → behind_line line s ≡ none
behind_line-none line [] h = refl
behind_line-none line (c ∷ s) h = elim (Bool-cases (c == b':')) [
  | inl colon ↦ rw colon (column_here-none line s (ground (arith, colon)))
  | inr other ↦ rw other refl
]

abbrev line_here : Bytes → Option FileLocation
line_here t = do line ← some_of is_digit t; behind_line line.0 line.1

line_here-none : (s : Bytes) → 1 < colons s → line_here s ≡ none
line_here-none [] h = refl
line_here-none (c ∷ s) h = elim (Bool-cases (is_digit c)) [
  | inl digit ↦
      let left : colons (span is_digit s).1 ≡ colons s = colons-span s in
      rw digit (
        behind_line-none (c ∷ (span is_digit s).0) (span is_digit s).1
          (ground (arith, left, digit_no_colon c digit)))
  | inr other ↦ rw other refl
]

location_tail-none : (s : Bytes) → 2 < colons s → location_tail s ≡ none
unfolding location_tail
location_tail-none [] h = refl
location_tail-none (c ∷ s) h = elim (Bool-cases (c == b':')) [
  | inl colon ↦ rw colon (line_here-none s (ground (arith, colon)))
  | inr other ↦ rw other refl
]

location_tail-text : (c : ℕ) (s : Bytes) → (c == b':') ≡ false → location_tail (c ∷ s) ≡ none
unfolding location_tail
location_tail-text c s h = rw h refl

-- a position as it stands behind the path
abbrev pub position : Bytes → Bytes → Bytes
position line column = b':' ∷ (line ++ b':' ∷ column)

abbrev pub no_newline : ℕ → Bool
no_newline c = not (c == 10)

-- digits, at least one
pub record IsNumber (s : Bytes) : Type 0 where
  pub digits : all_of is_digit s ≡ true
  pub some_digit : 0 < length s

span-all : (test : ℕ → Bool) (s : Bytes) → all_of test s ≡ true → span test s ≡ (s, [])
span-all test [] h = refl
span-all test (c ∷ s) h = elim (Bool-cases (test c)) [
  | inl here ↦ rw (here, span-all test s (rw here at h)) refl
  | inr away ↦ absurd (ground (arith, away))
]

some_of-number : (s : Bytes) → IsNumber s → some_of is_digit s ≡ some (s, [])
some_of-number [] n = absurd (omega (arith, n.some_digit))
some_of-number (c ∷ s) n = elim (Bool-cases (is_digit c)) [
  | inl here ↦ rw (span-all is_digit (c ∷ s) n.digits) (rw here refl)
  | inr away ↦ absurd (ground (arith, away, n.digits))
]

some_of-number_then :
    (s t : Bytes) → IsNumber s → some_of is_digit (s ++ b':' ∷ t) ≡ some (s, b':' ∷ t)
some_of-number_then [] t n = absurd (omega (arith, n.some_digit))
some_of-number_then (c ∷ s) t n = elim (Bool-cases (is_digit c)) [
  | inl here ↦ rw (span-append is_digit (c ∷ s) b':' t n.digits refl) (rw here refl)
  | inr away ↦ absurd (ground (arith, away, n.digits))
]

location_tail-position :
    (line column : Bytes)
    → IsNumber line
    → IsNumber column
    → location_tail (position line column)
      ≡ some (record { file = []; line = atoi line; column = atoi column })
unfolding location_tail
location_tail-position line column l c =
    rw (some_of-number_then line column l, some_of-number column c) refl

location_tail-before :
    (d : ℕ) (q line column : Bytes) → location_tail (d ∷ (q ++ position line column)) ≡ none
location_tail-before d q line column = elim (Bool-cases (d == b':')) [
  | inl colon ↦ location_tail-none (d ∷ (q ++ position line column)) (
      ground
        (arith, colon, colons-append q (position line column), colons-append line (b':' ∷ column)))
  | inr other ↦ location_tail-text d (q ++ position line column) other
]

file_location-found :
    (c : ℕ) (s : Bytes) (l : FileLocation)
    → location_tail (c ∷ s) ≡ some l
    → file_location (c ∷ s) ≡ some l
unfolding file_location
file_location-found c s l h = rw (file_location, h) refl

pub file_location-printed :
    (file line column : Bytes)
    → all_of no_newline file ≡ true
    → IsNumber line
    → IsNumber column
    → file_location (file ++ position line column)
      ≡ some (record { file = file; line = atoi line; column = atoi column })
unfolding file_location
file_location-printed [] line column h l c =
    file_location-found b':' (line ++ b':' ∷ column)
      (record { file = []; line = atoi line; column = atoi column })
      (location_tail-position line column l c)
file_location-printed (d ∷ file) line column h l c =
    let here : (d == 10) ≡ false = ground arith in
    rw
      (
        file_location,
        location_tail-before d file line column,
        here,
        file_location-printed file line column (ground arith) l c,
      )
      refl
