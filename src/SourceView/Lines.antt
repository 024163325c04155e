-- ===== src/SourceView/Lines.antt =====
-- A content is its lines: splitting and joining.
use herbarium.Base.{
  ℕ, ◌≡◌, ◌≢◌, refl, sym, ap, ◌∙◌, ◌⊎◌, inl, inr, arith, false, List, [], ◌∷◌, ◌++◌, Bytes, ◌==◌,
  Bool-cases, All, append_assoc,
}
use herbarium.SourceView.{split_lines, join_lines, drop_trailing, onto_first, newline, lines_of}

-- a line has no newline in it
abbrev pub IsLine : Bytes → Type 0
IsLine l = All (λ c. c ≢ newline) l

join-onto_first :
    (c : ℕ) (l : Bytes) (ls : List Bytes)
    → join_lines (onto_first c (l ∷ ls)) ≡ c ∷ join_lines (l ∷ ls)
unfolding join_lines
join-onto_first c l [] = refl
join-onto_first c l (m ∷ ls) = refl

split-some : (s : Bytes) → (l : Bytes) × (ls : List Bytes) × (split_lines s ≡ l ∷ ls)
unfolding split_lines
split-some [] = ([], [], refl)
split-some (c ∷ s) =
    let (l, ls, e) = split-some s in
    elim (Bool-cases (c == newline)) [
      | inl end ↦ ([], split_lines s, rw end refl)
      | inr other ↦ (c ∷ l, ls, rw (other, e) refl)
    ]

pub join-split_lines : (s : Bytes) → join_lines (split_lines s) ≡ s
unfolding split_lines join_lines
join-split_lines [] = refl
join-split_lines (c ∷ s) =
    let (l, ls, e) = split-some s in
    let ih : join_lines (l ∷ ls) ≡ s = ap join_lines (sym e) ∙ join-split_lines s in
    elim (Bool-cases (c == newline)) [
      | inl end ↦
          let is_newline : c ≡ newline = ground arith in
          rw (end, e) (ap (◌∷◌ newline) ih ∙ ap (◌∷ s) (sym is_newline))
      | inr other ↦ rw (other, e) (join-onto_first c l ls ∙ ap (◌∷◌ c) ih)
    ]

onto_first-All :
    (c : ℕ) (ls : List Bytes) → c ≢ newline → All IsLine ls → All IsLine (onto_first c ls)
onto_first-All c [] h hs = ((h, tt), tt)
onto_first-All c (l ∷ ls) h (hl, hs) = ((h, hl), hs)

pub split_lines-All : (s : Bytes) → All IsLine (split_lines s)
unfolding split_lines
split_lines-All [] = (tt, tt)
split_lines-All (c ∷ s) = elim (Bool-cases (c == newline)) [
  | inl end ↦ rw end (tt, split_lines-All s)
  | inr other ↦
      rw other (onto_first-All c (split_lines s) (λ e. ground (arith, e)) (split_lines-All s))
]

split-line : (l : Bytes) → IsLine l → split_lines l ≡ l ∷ []
unfolding split_lines
split-line [] h = refl
split-line (c ∷ l) (hc, h) =
    let other : (c == newline) ≡ false = ground (arith, hc) in rw (other, split-line l h) refl

split-append :
    (l : Bytes) (s : Bytes) → IsLine l → split_lines (l ++ (newline ∷ s)) ≡ l ∷ split_lines s
unfolding split_lines
split-append [] s h = refl
split-append (c ∷ l) s (hc, h) =
    let other : (c == newline) ≡ false = ground (arith, hc) in rw (other, split-append l s h) refl

-- Joined lines split into the lines, if there is one.
pub split-join_lines :
    (l : Bytes) (ls : List Bytes) → All IsLine (l ∷ ls) → split_lines (join_lines (l ∷ ls)) ≡ l ∷ ls
unfolding join_lines
split-join_lines l [] (h, _) = split-line l h
split-join_lines l (m ∷ ls) (h, hs) =
    split-append l (join_lines (m ∷ ls)) h ∙ ap (◌∷◌ l) (split-join_lines m ls hs)

pub drop_trailing-All : (ls : List Bytes) → All IsLine ls → All IsLine (drop_trailing ls)
unfolding drop_trailing
drop_trailing-All [] h = tt
drop_trailing-All ([] ∷ []) h = tt
drop_trailing-All ((c ∷ l) ∷ []) h = h
drop_trailing-All ([] ∷ m ∷ ls) (h, hs) = (h, drop_trailing-All (m ∷ ls) hs)
drop_trailing-All ((c ∷ l) ∷ m ∷ ls) (h, hs) = (h, drop_trailing-All (m ∷ ls) hs)

without-final_newline :
    (ls : List Bytes)
    → (join_lines ls ≡ join_lines (drop_trailing ls))
      ⊎ (join_lines ls ≡ join_lines (drop_trailing ls) ++ newline ∷ [])
unfolding join_lines drop_trailing
without-final_newline [] = inl refl
without-final_newline ([] ∷ []) = inl refl
without-final_newline ((c ∷ l) ∷ []) = inl refl
without-final_newline ([] ∷ [] ∷ []) = inr refl
without-final_newline ((c ∷ l) ∷ [] ∷ []) = inr refl
without-final_newline ([] ∷ (c ∷ l) ∷ []) = inl refl
without-final_newline ((d ∷ m) ∷ (c ∷ l) ∷ []) = inl refl
without-final_newline (l ∷ m ∷ n ∷ ls) = elim (without-final_newline (m ∷ n ∷ ls)) [
  | inl e ↦ inl (ap (λ r. l ++ (newline ∷ r)) e)
  | inr e ↦ inr (
      ap (λ r. l ++ (newline ∷ r)) e
      ∙ sym (append_assoc l (newline ∷ join_lines (m ∷ drop_trailing (n ∷ ls))) (newline ∷ [])))
]

-- The lines of a content are without newlines, and joined they are the content, or the content
-- without the newline at its end.
pub lines_of_lem :
    (content : Bytes)
    → All IsLine (lines_of content)
      × ((content ≡ join_lines (lines_of content))
          ⊎ (content ≡ join_lines (lines_of content) ++ newline ∷ []))
lines_of_lem content = (
  drop_trailing-All (split_lines content) (split_lines-All content),
  elim (without-final_newline (split_lines content)) [
    | inl e ↦ inl (sym (join-split_lines content) ∙ e)
    | inr e ↦ inr (sym (join-split_lines content) ∙ e)
  ],
)
