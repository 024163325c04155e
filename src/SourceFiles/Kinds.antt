-- ===== src/SourceFiles/Kinds.antt =====
-- The kinds of files that the source tools tell apart.
use herbarium.Base.{
  ◌≡◌, refl, sym, subst, inl, inr, Bool, true, false, not, ◌&&◌, ◌||◌, [], Bytes, codes, Bool-cases,
  if◌then◌else◌, list_beq, list_beq_iff, nat_eq,
}
use herbarium.SourceSearch.{matches_kind, is_csource_ext, is_header_ext}

-- whether a file is of the kind: a generated one, a source or a header where that is asked for
abbrev pub of_kind : Bytes → Bytes → Bool → Bool
of_kind kind path is_generated =
    (not (list_beq kind (codes "generated")) || is_generated)
    && ((not (list_beq kind (codes "source")) || is_csource_ext path)
        && (not (list_beq kind (codes "header")) || is_header_ext path))

and_true : (b : Bool) → (b && true) ≡ b
and_true true = refl
and_true false = refl

any_way : (b : Bool) → (if b then true else true) ≡ true
any_way true = refl
any_way false = refl

pub matches_kind-of_kind :
    (kind path : Bytes) (is_generated : Bool)
    → matches_kind kind path is_generated ≡ of_kind kind path is_generated
unfolding matches_kind
matches_kind-of_kind kind path is_generated =
    elim (Bool-cases (list_beq kind (codes "generated"))) [
      | inl e ↦
          subst (λ k. matches_kind k path is_generated ≡ of_kind k path is_generated)
            (sym ((list_beq_iff kind (codes "generated")).0 e)) (sym (and_true is_generated))
      | inr no_generated ↦ elim (Bool-cases (list_beq kind (codes "source"))) [
        | inl e ↦
            subst (λ k. matches_kind k path is_generated ≡ of_kind k path is_generated)
              (sym ((list_beq_iff kind (codes "source")).0 e))
              (sym (and_true (is_csource_ext path)))
        | inr no_source ↦ elim (Bool-cases (list_beq kind (codes "header"))) [
          | inl e ↦
              subst (λ k. matches_kind k path is_generated ≡ of_kind k path is_generated)
                (sym ((list_beq_iff kind (codes "header")).0 e)) refl
          | inr no_header ↦
              rw (matches_kind, no_generated, no_source, no_header)
                (any_way (
                  list_beq kind []
                  || (list_beq kind (codes "any") || (list_beq kind (codes "all") || false))))
        ]
      ]
    ]
