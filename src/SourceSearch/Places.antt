-- ===== src/SourceSearch/Places.antt =====
-- What the search in one line finds of a pattern: the places of the pattern, from the left.
use herbarium.Base.{
  ℕ, suc, ◌+◌, ◌-◌, ◌≤◌, ◌<◌, ◌≡◌, sym, ap, ◌∙◌, true, false, List, map, none, Bytes, take, length,
  ◌++◌, occurs_at, All,
}
use herbarium.SourceSearch.{Hit, Search, Scan, search_with, search_source_scan_limit}
use herbarium.SourceSearch.Literal.{
  literal_hits, recorded, Apart, Covered, literal_hits_lem, literal_hits-Covered,
}
use herbarium.SourceSearch.Counted.{fill, row_of, search_with-recorded, recorded_through}

-- The matches of a pattern in a line: each is a place of the pattern, they stand in their order and
-- do not overlap, and no place of the pattern is outside of them.
abbrev pub AreMatches : Bytes → ℕ → Bytes → List Hit → Type 0
AreMatches p line_num line hs =
    All (λ h. (h.line ≡ line_num) × (0 < h.column) × (occurs_at line p (h.column - 1) ≡ true)) hs
    × Apart (length p) hs
    × ((i : ℕ) → occurs_at line p i ≡ true → Covered (length p) i hs)

-- The search of a line for a pattern that is not empty, where it is not stopped by the ceiling of the
-- scan, counts the matches from the left that do not overlap: each is a place of the pattern, and
-- every place of it starts within one of them. It adds the rows of the first of them, up to the cap.
pub search_with-matches :
    (q : Search) (line_num : ℕ) (line : Bytes) (s : Scan)
    → 1 ≤ length q.pattern
    → (search_with none q line_num line s).full ≡ false
    → (hs : List Hit) × AreMatches q.pattern line_num line hs
      × ((search_with none q line_num line s).n ≡ s.n + length hs)
      × ((search_with none q line_num line s).matches
          ≡ s.matches ++ take (q.limit - length s.matches) (map (row_of q) hs))
unfolding fill
search_with-matches q line_num line s some_text unstopped =
    let hs : List Hit =
      literal_hits q.pattern (suc (length line + search_source_scan_limit)) line_num line 0 in
    let e : search_with none q line_num line s ≡ recorded q s hs =
      search_with-recorded none q line_num line s in
    let (places, apart) = literal_hits_lem q.pattern line_num line some_text in
    let (a, c) = recorded_through q hs s (sym (ap (λ y. y.full) e) ∙ unstopped) in
    (
      hs,
      (places, apart, (λ i at. literal_hits-Covered q.pattern line_num line i some_text at)),
      ap (λ y. y.n) e ∙ a,
      ap (λ y. y.matches) e ∙ c,
    )
