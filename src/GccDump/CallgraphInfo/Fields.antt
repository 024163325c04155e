-- ===== src/GccDump/CallgraphInfo/Fields.antt =====
-- The fields of a line of a ci dump, `key: "value"`, read back one after another.
use herbarium.Base.{
  ℕ, ◌-◌, ◌≡◌, refl, ap, ◌∙◌, arith, Bool, true, false, not, ◌&&◌, [], ◌∷◌, ◌++◌, some, Bytes, ◌==◌,
  length, length-append, is_word, list_eq, nat_eq, append_assoc,
}
use herbarium.GccDump.CgraphDump.Targets.{all_of, span-append}
use herbarium.GccDump.CallgraphInfo.{quoted, field_at, fields_in, replace_escape, unescape}

-- no quote, no backslash and no newline
abbrev pub is_plain : ℕ → Bool
is_plain c = not (c == b'"') && (not (c == b'\\') && not (c == 10))

-- a field of a line, and the text behind it
abbrev pub named : Bytes → Bytes → Bytes → Bytes
named key v t = key ++ (b':' ∷ b' ' ∷ b'"' ∷ (v ++ b'"' ∷ t))

quoted-plain : (s t : Bytes) → all_of is_plain s ≡ true → quoted false (s ++ b'"' ∷ t) ≡ some (s, t)
unfolding quoted
quoted-plain [] t h = refl
quoted-plain (c ∷ s) t h =
    let quote : (c == b'"') ≡ false = ground arith in
    let backslash : (c == b'\\') ≡ false = ground arith in
    rw (quote, backslash, quoted-plain s t (ground arith)) refl

replace_escape-plain :
    (b new : ℕ) (s : Bytes) → all_of is_plain s ≡ true → replace_escape b new false s ≡ s
unfolding replace_escape
replace_escape-plain b new [] h = refl
replace_escape-plain b new (c ∷ s) h =
    let backslash : (c == b'\\') ≡ false = ground arith in
    rw (backslash, replace_escape-plain b new s (ground arith)) refl

pub unescape-plain : (s : Bytes) → all_of is_plain s ≡ true → unescape s ≡ s
unescape-plain s h =
    ap (replace_escape b'"' b'"' false) (replace_escape-plain b'n' 10 s h)
    ∙ replace_escape-plain b'"' b'"' s h

fields_in-skip : (a t : Bytes) → fields_in (length a) (a ++ t) ≡ fields_in 0 t
unfolding fields_in
fields_in-skip [] t = refl
fields_in-skip (c ∷ a) t = fields_in-skip a t

fields_in-behind : (a t : Bytes) → fields_in (length (a ++ t) - length t) (a ++ t) ≡ fields_in 0 t
fields_in-behind a t =
    let count : length (a ++ t) - length t ≡ length a = omega (arith, length-append a t) in
    ap (λ k. fields_in k (a ++ t)) count ∙ fields_in-skip a t

field_at-named :
    (c : ℕ) (key v t : Bytes)
    → all_of is_word (c ∷ key) ≡ true
    → all_of is_plain v ≡ true
    → field_at (named (c ∷ key) v t) ≡ some (record { key = c ∷ key; value = v; rest = t })
unfolding field_at
field_at-named c key v t word plain =
    let first : is_word c ≡ true = ground arith in
    rw
      (
        field_at,
        first,
        span-append is_word key b':' (b' ' ∷ b'"' ∷ (v ++ b'"' ∷ t)) (ground arith) refl,
      )
      (rw (quoted-plain v t plain) refl)

pub fields_in-named :
    (c : ℕ) (key v t : Bytes)
    → all_of is_word (c ∷ key) ≡ true
    → all_of is_plain v ≡ true
    → fields_in 0 (named (c ∷ key) v t) ≡ (c ∷ key, v) ∷ fields_in 0 t
unfolding fields_in
fields_in-named c key v t word plain =
    let prefix : Bytes = key ++ (b':' ∷ b' ' ∷ b'"' ∷ (v ++ b'"' ∷ [])) in
    let split : named key v t ≡ prefix ++ t = simp append_assoc refl in
    rw (fields_in, field_at-named c key v t word plain)
      (ap (λ fs. (c ∷ key, v) ∷ fs)
        (ap (λ s. fields_in (length s - length t) s) split ∙ fields_in-behind prefix t))
