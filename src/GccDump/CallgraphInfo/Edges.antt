-- ===== src/GccDump/CallgraphInfo/Edges.antt =====
-- An edge of a ci dump, read back from the line that gcc writes.
use herbarium.Base.{
  ℕ, ◌≡◌, refl, ap, ◌∙◌, inl, inr, arith, Bool, true, false, not, List, [], ◌∷◌, ◌++◌, Bytes, codes,
  Bool-cases, is_digit, list_beq, list_eq, nat_eq,
}
use herbarium.GccDump.{Ci, CiEdge}
use herbarium.GccDump.CgraphDump.{atoi, is_white, trim_right, trim_white}
use herbarium.GccDump.CgraphDump.Targets.{all_of}
use herbarium.GccDump.CallgraphInfo.{
  field_at, fields_in, ci_fields, parse_ci_edge, indirect_call, ci_line, ci_lines, no_ci, parse_ci,
}
use herbarium.GccDump.CallgraphInfo.Locations.{
  position, no_newline, IsNumber, file_location-printed,
}
use herbarium.GccDump.CallgraphInfo.Fields.{is_plain, named, unescape-plain, fields_in-named}

abbrev pub printed_edge : Bytes → Bytes → Bytes → Bytes
printed_edge source target label =
    codes "edge: { "
    ++ named (codes "sourcename") source
        (b' ' ∷ named (codes "targetname") target (b' ' ∷ named (codes "label") label (codes " }")))

abbrev fields_of : Bytes → Bytes → Bytes → List (Bytes × Bytes)
fields_of source target label =
    (codes "sourcename", source) ∷ (codes "targetname", target) ∷ (codes "label", label) ∷ []

fields_in-prefix : (s : Bytes) → fields_in 0 (codes "edge: { " ++ s) ≡ fields_in 0 s
unfolding fields_in field_at
fields_in-prefix s = refl

fields_in-suffix : fields_in 0 (codes " }") ≡ []
unfolding fields_in field_at
fields_in-suffix = refl

fields_in-blank : (s : Bytes) → fields_in 0 (b' ' ∷ s) ≡ fields_in 0 s
unfolding fields_in field_at
fields_in-blank s = refl

fields_in-printed :
    (source target label : Bytes)
    → all_of is_plain source ≡ true
    → all_of is_plain target ≡ true
    → all_of is_plain label ≡ true
    → fields_in 0 (printed_edge source target label) ≡ fields_of source target label
fields_in-printed source target label s t l =
    let last : Bytes = named (codes "label") label (codes " }") in
    let next : Bytes = named (codes "targetname") target (b' ' ∷ last) in
    let last_lem : fields_in 0 last ≡ (codes "label", label) ∷ [] =
      fields_in-named b'l' (codes "abel") label (codes " }") refl l ∙ rw fields_in-suffix refl in
    let next_lem : fields_in 0 next ≡ (codes "targetname", target) ∷ (codes "label", label) ∷ [] =
      fields_in-named b't' (codes "argetname") target (b' ' ∷ last) refl t
      ∙ ap (λ fs. (codes "targetname", target) ∷ fs) (fields_in-blank last ∙ last_lem) in
    fields_in-prefix (named (codes "sourcename") source (b' ' ∷ next))
    ∙ (fields_in-named b's' (codes "ourcename") source (b' ' ∷ next) refl s
        ∙ ap (λ fs. (codes "sourcename", source) ∷ fs) (fields_in-blank next ∙ next_lem))

abbrev pub edge_at : Bytes → Bytes → Bytes → ℕ → ℕ → CiEdge
edge_at source target file line column = record {
  source = source;
  target = target;
  site_file = file;
  site_line = line;
  site_column = column;
  indirect = list_beq target indirect_call;
}

all_of-append :
    (test : ℕ → Bool) (s t : Bytes)
    → all_of test s ≡ true
    → all_of test t ≡ true
    → all_of test (s ++ t) ≡ true
all_of-append test [] t h k = k
all_of-append test (c ∷ s) t h k = ground (arith, all_of-append test s t)

all_of-implies :
    (test other : ℕ → Bool)
    → ((c : ℕ) → test c ≡ true → other c ≡ true)
    → (s : Bytes) → all_of test s ≡ true
    → all_of other s ≡ true
all_of-implies test other f [] h = refl
all_of-implies test other f (c ∷ s) h = elim (Bool-cases (test c)) [
  | inl here ↦ rw (f c here) (all_of-implies test other f s (rw here at h))
  | inr away ↦ absurd (ground (arith, away))
]

digit_plain : (c : ℕ) → is_digit c ≡ true → is_plain c ≡ true
digit_plain c h = ground arith

plain_no_newline : (c : ℕ) → is_plain c ≡ true → no_newline c ≡ true
plain_no_newline c h = ground arith

position-plain :
    (line column : Bytes)
    → IsNumber line
    → IsNumber column
    → all_of is_plain (position line column) ≡ true
position-plain line column l c =
    all_of-append is_plain line (b':' ∷ column)
      (all_of-implies is_digit is_plain digit_plain line l.digits)
      (all_of-implies is_digit is_plain digit_plain column c.digits)

parse_ci_edge-printed :
    (source target file line column : Bytes)
    → all_of is_plain source ≡ true
    → all_of is_plain target ≡ true
    → all_of is_plain file ≡ true
    → IsNumber line
    → IsNumber column
    → parse_ci_edge (ci_fields (printed_edge source target (file ++ position line column)))
      ≡ edge_at source target file (atoi line) (atoi column)
unfolding parse_ci_edge
parse_ci_edge-printed source target file line column s t f l c =
    let label : Bytes = file ++ position line column in
    let plain : all_of is_plain label ≡ true =
      all_of-append is_plain file (position line column) f (position-plain line column l c) in
    rw
      (
        fields_in-printed source target label s t plain,
        unescape-plain source s,
        unescape-plain target t,
        unescape-plain label plain,
      )
      (rw
        (file_location-printed file line column
          (all_of-implies is_plain no_newline plain_no_newline file f) l c)
        refl)

-- text with no white space at its end
abbrev is_solid : Bytes → Bool
is_solid [] = false
is_solid (c ∷ []) = not (is_white c)
is_solid (c ∷ d ∷ s) = is_solid (d ∷ s)

is_solid-cons : (c : ℕ) (s : Bytes) → is_solid s ≡ true → is_solid (c ∷ s) ≡ true
is_solid-cons c [] h = absurd (ground arith)
is_solid-cons c (d ∷ s) h = h

is_solid-append : (s t : Bytes) → is_solid t ≡ true → is_solid (s ++ t) ≡ true
is_solid-append [] t h = h
is_solid-append (c ∷ s) t h = is_solid-cons c (s ++ t) (is_solid-append s t h)

trim_right-solid : (s : Bytes) → is_solid s ≡ true → trim_right s ≡ s
unfolding trim_right
trim_right-solid [] h = refl
trim_right-solid (c ∷ []) h = let solid : is_white c ≡ false = ground arith in rw solid refl
trim_right-solid (c ∷ d ∷ s) h = rw (trim_right-solid (d ∷ s) h) refl

is_solid-named : (key v t : Bytes) → is_solid t ≡ true → is_solid (named key v t) ≡ true
is_solid-named key v t h =
    is_solid-append key (b':' ∷ b' ' ∷ b'"' ∷ (v ++ b'"' ∷ t))
      (is_solid-append (b':' ∷ b' ' ∷ b'"' ∷ v) (b'"' ∷ t) (is_solid-cons b'"' t h))

trim_white-printed :
    (source target label : Bytes)
    → trim_white (printed_edge source target label) ≡ printed_edge source target label
unfolding trim_white
trim_white-printed source target label =
    let last : Bytes = named (codes "label") label (codes " }") in
    let next : Bytes = named (codes "targetname") target (b' ' ∷ last) in
    trim_right-solid (printed_edge source target label) (
      is_solid-append (codes "edge: { ") (named (codes "sourcename") source (b' ' ∷ next)) (
        is_solid-named (codes "sourcename") source (b' ' ∷ next) (
          is_solid-cons b' ' next (
            is_solid-named (codes "targetname") target (b' ' ∷ last)
              (is_solid-cons b' ' last (is_solid-named (codes "label") label (codes " }") refl))))))

ci_lines-append :
    (ci : Ci) (lines : List Bytes) (line : Bytes)
    → ci_lines ci (lines ++ line ∷ []) ≡ ci_line (ci_lines ci lines) (trim_white line)
unfolding ci_lines
ci_lines-append ci [] line = refl
ci_lines-append ci (l ∷ lines) line = ci_lines-append (ci_line ci (trim_white l)) lines line

-- The line of an edge, behind whatever other lines, adds that edge at the end of the edges: where the
-- two names and the path hold no quote, no backslash and no newline, and the line and the column are
-- digits, the edge has those names, the path, which may hold colons, and the values of the line and
-- the column, and it is indirect exactly if the target is __indirect_call.
pub parse_ci-edge :
    (lines : List Bytes) (source target file line column : Bytes)
    → all_of is_plain source ≡ true
    → all_of is_plain target ≡ true
    → all_of is_plain file ≡ true
    → IsNumber line
    → IsNumber column
    → (parse_ci (lines ++ printed_edge source target (file ++ position line column) ∷ [])).edges
      ≡ (parse_ci lines).edges ++ edge_at source target file (atoi line) (atoi column) ∷ []
unfolding parse_ci
parse_ci-edge lines source target file line column s t f l c =
    let printed : Bytes = printed_edge source target (file ++ position line column) in
    let ci : Ci = ci_lines no_ci lines in
    ap Ci.edges (
      ci_lines-append no_ci lines printed
      ∙ ap (ci_line ci) (trim_white-printed source target (file ++ position line column)))
    ∙ ap (λ e. ci.edges ++ e ∷ []) (parse_ci_edge-printed source target file line column s t f l c)
