-- ===== src/SourceView/Windows.antt =====
-- Windows of lines: the bounds of a snippet, and the lines that its text is.
use herbarium.Base.{
  Bool-cases, ◌⊎◌, positive_part, inl, inr, if_same, ℕ, ℤ, pos, negsuc, zero, suc, ◌+◌, ◌-◌, ◌≤◌,
  ◌<◌, ◌≡◌, refl, sym, ap, ◌∙◌, arith, true, false, List, [], ◌∷◌, none, some, Bytes, ◌==◌, ltb,
  if◌then◌else◌, All, All-take, take, drop, length, get_elem?,
}
use herbarium.SourceView.{
  Snippet, split_lines, join_lines, lines_of, slice, min, max, clamp_range, extract_snippet,
  slice_lines,
}
use herbarium.SourceView.Lines.{IsLine, lines_of_lem, split-join_lines}

module _ {ℓ κ} {A : Type ℓ} (P : A → Type κ) where
  All-drop : (n : ℕ) (xs : List A) → All P xs → All P (drop n xs)
  All-drop zero xs h = h
  All-drop (suc n) [] h = tt
  All-drop (suc n) (x ∷ xs) (p, h) = All-drop n xs h

module _ {ℓ} {A : Type ℓ} where
  get_elem?-take :
      (n i : ℕ) (xs : List A) → get_elem? (take n xs) i ≡ (if ltb i n then get_elem? xs i else none)
  get_elem?-take zero i xs = ground arith
  get_elem?-take (suc n) i [] = ground arith
  get_elem?-take (suc n) zero (x ∷ xs) = ground arith
  get_elem?-take (suc n) (suc i) (x ∷ xs) = ground (arith, get_elem?-take n i xs)

  get_elem?-drop : (n i : ℕ) (xs : List A) → get_elem? (drop n xs) i ≡ get_elem? xs (n + i)
  get_elem?-drop zero i xs = let e : 0 + i ≡ i = omega arith in rw e refl
  get_elem?-drop (suc n) i [] = refl
  get_elem?-drop (suc n) i (x ∷ xs) =
      let e : suc n + i ≡ suc (n + i) = omega arith in rw e (get_elem?-drop n i xs)

  slice-some :
      (xs : List A) (n m : ℕ)
      → n < length xs
      → (x : A) × (ys : List A) × (take (suc m) (drop n xs) ≡ x ∷ ys)
  slice-some [] n m h = absurd (ground arith)
  slice-some (x ∷ xs) zero m h = (x, take m xs, refl)
  slice-some (x ∷ xs) (suc n) m h = slice-some xs n m (omega arith)

-- a window that is not empty
slice_first :
    (ls : List Bytes) (s e : ℕ)
    → 1 ≤ s
    → s ≤ e
    → e ≤ length ls
    → (l : Bytes) × (rest : List Bytes) × (slice ls s e ≡ l ∷ rest)
slice_first ls s e h1 h2 h3 =
    let size : e - (s - 1) ≡ suc (e - s) = omega arith in
    rw size (slice-some ls (s - 1) (e - s) (omega arith))

slice_lines-text :
    (content : Bytes) (s e : ℕ)
    → 1 ≤ s
    → s ≤ e
    → e ≤ length (lines_of content)
    → slice_lines content (pos s) (pos e)
      ≡ (join_lines (slice (lines_of content) s e), length (lines_of content))
unfolding slice_lines
slice_lines-text content s e h1 h2 h3 =
    let a : (s == 0) ≡ false = ground arith in
    let b : (e == 0) ≡ false = ground arith in
    let c : ltb (length (lines_of content)) e ≡ false = ground arith in
    let d : (length (lines_of content) == 0) ≡ false = ground arith in
    let f : ltb e s ≡ false = ground arith in rw (a, b, c, d, f) refl

-- Between its first and last line, within the file, the text that `sliceLines` gives splits into
-- those lines of the file: line i of the text is line s + i of the file. The number given with it
-- is that of the lines of the file.
pub slice_lines_lem :
    (content : Bytes) (s e : ℕ)
    → 1 ≤ s
    → s ≤ e
    → e ≤ length (lines_of content)
    → ((i : ℕ)
        → get_elem? (split_lines (slice_lines content (pos s) (pos e)).0) i
          ≡ (if ltb i (suc (e - s)) then get_elem? (lines_of content) ((s - 1) + i) else none))
      × ((slice_lines content (pos s) (pos e)).1 ≡ length (lines_of content))
slice_lines_lem content s e h1 h2 h3 =
    let at : slice_lines content (pos s) (pos e)
        ≡ (join_lines (slice (lines_of content) s e), length (lines_of content)) =
      slice_lines-text content s e h1 h2 h3 in
    let (l, rest, first) = slice_first (lines_of content) s e h1 h2 h3 in
    let are_lines : All IsLine (slice (lines_of content) s e) =
      All-take IsLine (e - (s - 1)) (drop (s - 1) (lines_of content))
        (All-drop IsLine (s - 1) (lines_of content) (lines_of_lem content).0) in
    let back : split_lines (join_lines (slice (lines_of content) s e))
        ≡ slice (lines_of content) s e =
      rw first (split-join_lines l rest (rw first at are_lines)) in
    let size : e - (s - 1) ≡ suc (e - s) = omega arith in
    rw at (
      (λ i.
          ap (λ x. get_elem? x i) back
          ∙ get_elem?-take (e - (s - 1)) i (drop (s - 1) (lines_of content))
          ∙ rw (size, get_elem?-drop (s - 1) i (lines_of content)) refl),
      refl,
    )

abbrev window_at : List Bytes → ℕ → ℕ → Snippet
window_at ls s e = record { start_line = s; end_line = e; text = join_lines (slice ls s e) }

extract_snippet-window :
    (content : Bytes) (line context s e : ℕ)
    → 1 ≤ line
    → 1 ≤ length (lines_of content)
    → max (line - context) 1 ≡ s
    → min (line + context) (length (lines_of content)) ≡ e
    → s ≤ e
    → extract_snippet content (pos line) context ≡ some (window_at (lines_of content) s e)
unfolding extract_snippet
extract_snippet-window content line context s e h1 h2 hs he h3 =
    let a : (line == 0) ≡ false = ground arith in
    let b : (length (lines_of content) == 0) ≡ false = ground arith in
    let c : ltb e s ≡ false = ground arith in rw (a, b, hs, he, c) refl

-- A line of the file has a snippet, around it: at most `context` lines on either side, within the
-- file, with the text that `sliceLines` gives for them.
pub extract_snippet_lem :
    (content : Bytes) (line context : ℕ)
    → 1 ≤ line
    → line ≤ length (lines_of content)
    → (w : Snippet) × (extract_snippet content (pos line) context ≡ some w)
      × (1 ≤ w.start_line)
      × (w.start_line ≤ line)
      × (line ≤ w.start_line + context)
      × (line ≤ w.end_line)
      × (w.end_line ≤ line + context)
      × (w.end_line ≤ length (lines_of content))
      × (w.text ≡ (slice_lines content (pos w.start_line) (pos w.end_line)).0)
extract_snippet_lem content line context h1 h2 =
    let total : ℕ = length (lines_of content) in
    let s : ℕ = max (line - context) 1 in
    let e : ℕ = min (line + context) total in
    let s1 : 1 ≤ s = ground arith in
    let s2 : s ≤ line = ground arith in
    let e1 : line ≤ e = ground arith in
    let e2 : e ≤ total = ground arith in
    (
      window_at (lines_of content) s e,
      extract_snippet-window content line context s e h1 (omega arith) refl refl (omega arith),
      s1,
      s2,
      ground arith,
      e1,
      ground arith,
      e2,
      sym (ap (λ x. x.0) (slice_lines-text content s e s1 (omega arith) e2)),
    )

-- A line more than `context` behind the end of the file has no snippet, and in an empty file none
-- has one.
pub extract_snippet-none :
    (content : Bytes) (line context : ℕ)
    → (length (lines_of content) + context < line) ⊎ (length (lines_of content) ≡ 0)
    → extract_snippet content (pos line) context ≡ none
unfolding extract_snippet
extract_snippet-none content line context (inl far) =
    let a : (line == 0) ≡ false = ground arith in
    let c : ltb (min (line + context) (length (lines_of content))) (max (line - context) 1) ≡ true =
      ground arith in
    rw (a, c) (if_same (length (lines_of content) == 0))
extract_snippet-none content line context (inr empty) =
    let b : (length (lines_of content) == 0) ≡ true = ground arith in rw b (if_same (line == 0))

-- A clamped argument is within the bounds, and it is the argument itself, or that is out of them.
pub clamp_range_lem :
    (v : ℤ) (lo hi : ℕ)
    → lo ≤ hi
    → (lo ≤ clamp_range v lo hi)
      × (clamp_range v lo hi ≤ hi)
      × ((v ≡ pos (clamp_range v lo hi)) ⊎ (positive_part v ≤ lo) ⊎ (hi < positive_part v))
unfolding clamp_range
clamp_range_lem (negsuc m) lo hi h = (omega arith, omega arith, inr (inl (omega arith)))
clamp_range_lem (pos m) lo hi h = (
  ground arith,
  ground arith,
  elim (Bool-cases (ltb m lo)) [
    | inl below ↦ inr (inl (ground arith))
    | inr not_below ↦ elim (Bool-cases (ltb hi m)) [
      | inl above ↦ inr (inr (ground arith))
      | inr within ↦ inl (ap pos (ground arith))
    ]
  ],
)
