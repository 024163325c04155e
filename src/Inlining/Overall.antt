-- ===== src/Inlining/Overall.antt =====
-- `overallVerdict`: one verdict only where every object has it.
use herbarium.Base.{
  ◌≡◌, ◌≢◌, ◌↔◌, refl, sym, subst, ◌∙◌, inl, inr, arith, true, false, List, [], ◌∷◌, Bool-cases,
  if◌then◌else◌, All,
}
use herbarium.Inlining.{
  Verdict, no_decision_logged, mixed, ObjectInlineVerdict, same_verdict, all_same, overall_verdict,
}

same_verdict_iff : (v w : Verdict) → (same_verdict v w ≡ true) ↔ (v ≡ w)
same_verdict_iff v w = ground arith

all_same_iff :
    (v : Verdict) (per : List ObjectInlineVerdict)
    → (all_same v per ≡ true) ↔ All (λ q. q.verdict ≡ v) per
all_same_iff v [] = ((λ h. tt), (λ h. refl))
all_same_iff v (p ∷ per) = (
  (λ h. ((same_verdict_iff p.verdict v).0 (ground arith), (all_same_iff v per).0 (ground arith))),
  (λ (e, h).
      let a : same_verdict p.verdict v ≡ true = (same_verdict_iff p.verdict v).1 e in
      let b : all_same v per ≡ true = (all_same_iff v per).1 h in ground arith),
)

cons_ne {ℓ} : {A : Type ℓ} (a : A) (l : List A) → a ∷ l ≢ []
cons_ne a l e = cc

true_ne : true ≢ false
true_ne e = cc

-- The overall verdict is one that an object can have exactly if there is an object and each of
-- them has it.
pub overall_verdict_lem :
    (per : List ObjectInlineVerdict) (v : Verdict)
    → v ≢ mixed
    → v ≢ no_decision_logged
    → ((overall_verdict per).0 ≡ v) ↔ ((per ≢ []) × All (λ q. q.verdict ≡ v) per)
unfolding overall_verdict
overall_verdict_lem [] v h g = ((λ e. absurd (g (sym e))), (λ (e, _). absurd (e refl)))
overall_verdict_lem (p ∷ per) v h g =
    let value : (overall_verdict (p ∷ per)).0
        ≡ (if all_same p.verdict per then p.verdict else mixed) =
      ground arith in
    elim (Bool-cases (all_same p.verdict per)) [
      | inl agree ↦
          let is_v : (overall_verdict (p ∷ per)).0 ≡ p.verdict = value ∙ rw agree refl in
          (
            (λ e.
                let q : p.verdict ≡ v = sym is_v ∙ e in
                (
                  cons_ne p per,
                  (
                    q,
                    subst (λ w. All (λ r. r.verdict ≡ w) per) q
                        ((all_same_iff p.verdict per).0 agree),
                  ),
                )),
            (λ (_, (q, _)). is_v ∙ q),
          )
      | inr differ ↦
          let is_mixed : (overall_verdict (p ∷ per)).0 ≡ mixed = value ∙ rw differ refl in
          (
            (λ e. absurd (h (sym e ∙ is_mixed))),
            (λ (_, (q, all)).
                let same : all_same p.verdict per ≡ true =
                  (all_same_iff p.verdict per).1
                    (subst (λ w. All (λ r. r.verdict ≡ w) per) (sym q) all) in
                absurd (true_ne (sym same ∙ differ))),
          )
    ]
