-- ===== src/Inlining/Capped.antt =====
-- The caps: an answer is cut to the limit and says so, and a verdict is not affected by them.
use herbarium.Base.{
  ℕ, zero, suc, ◌+◌, ◌≤◌, ◌≡◌, refl, sym, ap, ◌∙◌, inl, inr, arith, Bool, true, false, ◌||◌, List,
  [], ◌∷◌, Option, insert, list_eq, nat_eq, map, ltb, if◌then◌else◌, Bool-cases, take, length,
  length-take-le, Bytes,
}
use herbarium.SourceView.{Location}
use herbarium.Inlining.{
  InlineQuery, get, saw_record, saw_instance, InlineRecordRow, InlineInstanceRow, Plane,
  InliningSummary, Acc, cut, inline_records, inline_instances, enriched_record, enriched_instance,
  instance_loop, record_loop, per_object_verdicts, overall_verdict, describe_inlining, explain_call,
  verdict_scan_limit, verdict_scan,
}

module _ {ℓ} {A : Type ℓ} where
  take-all : (n : ℕ) (xs : List A) → length xs ≤ n → take n xs ≡ xs
  take-all zero [] h = refl
  take-all zero (x ∷ xs) h = absurd (ground arith)
  take-all (suc n) [] h = refl
  take-all (suc n) (x ∷ xs) h = ap (◌∷◌ x) (take-all n xs (omega arith))

  take_longer : (n : ℕ) (xs : List A) → take n (take (suc n) xs) ≡ take n xs
  take_longer zero xs = refl
  take_longer (suc n) [] = refl
  take_longer (suc n) (x ∷ xs) = ap (◌∷◌ x) (take_longer n xs)

  ltb_longer : (n : ℕ) (xs : List A) → ltb n (length (take (suc n) xs)) ≡ ltb n (length xs)
  ltb_longer zero [] = refl
  ltb_longer zero (x ∷ xs) = ground arith
  ltb_longer (suc n) [] = refl
  ltb_longer (suc n) (x ∷ xs) = ground (arith, ltb_longer n xs)

  cut_lem : (n : ℕ) (xs : List A) → cut n xs ≡ (take n xs, ltb n (length xs))
  cut_lem n xs = elim (Bool-cases (ltb n (length xs))) [
    | inl long ↦ rw long refl
    | inr short ↦ rw short (ap (λ x. (x, false)) (sym (take-all n xs (ground arith))))
  ]

module _ {ℓ κ} {A : Type ℓ} {B : Type κ} (f : A → B) where
  length-map : (xs : List A) → length (map f xs) ≡ length xs
  length-map [] = refl
  length-map (x ∷ xs) = omega (arith, length-map xs)

  take-map : (n : ℕ) (xs : List A) → take n (map f xs) ≡ map f (take n xs)
  take-map zero xs = refl
  take-map (suc n) [] = refl
  take-map (suc n) (x ∷ xs) = ap (◌∷◌ (f x)) (take-map n xs)

  -- a list that is asked for with one item more than the limit, and cut
  cut-map :
      (n : ℕ) (xs : List A)
      → cut n (map f (take (n + 1) xs)) ≡ (map f (take n xs), ltb n (length xs))
  cut-map n xs =
      let more : n + 1 ≡ suc n = omega arith in
      let size : length (map f (take (suc n) xs)) ≡ length (take (suc n) xs) =
        length-map (take (suc n) xs) in
      rw more (elim (Bool-cases (ltb n (length xs))) [
        | inl long ↦
            let at : ltb n (length (map f (take (suc n) xs))) ≡ true =
              ap (ltb n) size ∙ ltb_longer n xs ∙ long in
            rw (at, long)
              (ap (λ x. (x, true)) (take-map n (take (suc n) xs) ∙ ap (map f) (take_longer n xs)))
        | inr short ↦
            let at : ltb n (length (map f (take (suc n) xs))) ≡ false =
              ap (ltb n) size ∙ ltb_longer n xs ∙ short in
            let le : length xs ≤ n = ground arith in
            rw (at, short)
              (ap (λ x. (map f x, false))
                (take-all (suc n) xs (omega (arith, le)) ∙ sym (take-all n xs le)))
      ])

cut-scanned {ℓ} :
    {A : Type ℓ} (f : A → A) (n : ℕ) (xs : List A) {ys : List A}
    → ys ≡ map f xs
    → (cut n ys).1 ≡ ltb n (length xs)
cut-scanned f n xs {ys} e =
    ap (λ x. x.1) (cut_lem n ys) ∙ ap (λ x. ltb n (length x)) e ∙ ap (ltb n) (length-map f xs)

ap2_or : {a b a' b' : Bool} → a ≡ a' → b ≡ b' → (a || b) ≡ (a' || b')
ap2_or e f = cc

-- a shown list is not longer than the limit, with its snippets and without
shown_le {ℓ} :
    {A : Type ℓ} (f : A → A) (b : Bool) (n : ℕ) (xs : List A)
    → length (if b then map f (cut n xs).0 else (cut n xs).0) ≤ n
shown_le f b n xs =
    let cut_le : length (cut n xs).0 ≤ n = rw (cut_lem n xs) (length-take-le n xs) in
    elim (Bool-cases b) [
      | inl with ↦ rw (with, length-map f (cut n xs).0) cut_le
      | inr without ↦ rw without cut_le
    ]

or_cong : {a b c a' b' c' : Bool} → a ≡ a' → b ≡ b' → c ≡ c' → (a || b || c) ≡ (a' || b' || c')
or_cong e f g = cc

-- The verdicts read the object, the pass, the flag and the reason of a row, not its location.
module _ (enrich : Location → Bool → Location) where
  record_loop-enriched :
      (b : Bool) (rs : List InlineRecordRow) (m : List (Bytes × Acc))
      → record_loop m (map (enriched_record enrich b) rs) ≡ record_loop m rs
  unfolding record_loop
  record_loop-enriched b [] m = refl
  record_loop-enriched b (r ∷ rs) m =
      record_loop-enriched b rs (insert r.object (saw_record (get m r.object) r) m)

  instance_loop-enriched :
      (b : Bool) (is : List InlineInstanceRow) (m : List (Bytes × Acc))
      → instance_loop m (map (enriched_instance enrich b) is) ≡ instance_loop m is
  unfolding instance_loop
  instance_loop-enriched b [] m = refl
  instance_loop-enriched b (i ∷ is) m =
      instance_loop-enriched b is (insert i.object (saw_instance (get m i.object)) m)

  per_object_verdicts-enriched :
      (b : Bool) (rs : List InlineRecordRow) (is : List InlineInstanceRow)
      → per_object_verdicts
          (map (enriched_record enrich b) rs)
          (map (enriched_instance enrich b) is)
        ≡ per_object_verdicts rs is
  unfolding per_object_verdicts
  per_object_verdicts-enriched b rs is =
      rw (instance_loop-enriched b is [], record_loop-enriched b rs (instance_loop [] is)) refl

  -- Each of the three lists is a prefix of the matching rows, of at most the limit, and the answer
  -- is marked as truncated exactly if one of them has more rows than the limit.
  pub describe_inlining_lem :
      (rows : Plane) (summary : InliningSummary) (q : InlineQuery)
      → ((describe_inlining enrich rows summary q).records
          ≡ map (enriched_record enrich q.snippets) (take q.limit rows.records))
        × ((describe_inlining enrich rows summary q).instances
            ≡ map (enriched_instance enrich q.snippets) (take q.limit rows.instances))
        × ((describe_inlining enrich rows summary q).cgraph_edges ≡ take q.limit rows.edges)
        × ((describe_inlining enrich rows summary q).truncated ≡ (
            ltb q.limit (length rows.records)
            || ltb q.limit (length rows.instances)
            || ltb q.limit (length rows.edges)))
  unfolding describe_inlining inline_records inline_instances
  describe_inlining_lem rows summary q =
      let a : inline_records enrich q rows.records ≡ _ =
        cut-map (enriched_record enrich q.snippets) q.limit rows.records in
      let b : inline_instances enrich q rows.instances ≡ _ =
        cut-map (enriched_instance enrich q.snippets) q.limit rows.instances in
      let c : cut q.limit rows.edges ≡ _ = cut_lem q.limit rows.edges in
      (
        ap (λ x. x.0) a,
        ap (λ x. x.0) b,
        ap (λ x. x.0) c,
        or_cong (ap (λ x. x.1) a) (ap (λ x. x.1) b) (ap (λ x. x.1) c),
      )

  -- all rows are scanned, if there are not more than the scan's limit
  scanned_records :
      (rs : List InlineRecordRow)
      → length rs ≤ verdict_scan_limit
      → (inline_records enrich verdict_scan rs).0 ≡ map (enriched_record enrich false) rs
  unfolding inline_records
  scanned_records rs h =
      ap (λ x. x.0) (cut-map (enriched_record enrich false) verdict_scan_limit rs)
      ∙ ap (map (enriched_record enrich false)) (take-all verdict_scan_limit rs h)

  scanned_instances :
      (is : List InlineInstanceRow)
      → length is ≤ verdict_scan_limit
      → (inline_instances enrich verdict_scan is).0 ≡ map (enriched_instance enrich false) is
  unfolding inline_instances
  scanned_instances is h =
      ap (λ x. x.0) (cut-map (enriched_instance enrich false) verdict_scan_limit is)
      ∙ ap (map (enriched_instance enrich false)) (take-all verdict_scan_limit is h)

  -- With at most 10000 matching rows of either kind the verdicts of `explain_call` are those of
  -- all of them, whatever the limit that was asked for.
  pub explain_call_lem :
      (rows : Plane) (max_inlined : Option ℕ) (linked : ℕ) (q : InlineQuery)
      → length rows.records ≤ verdict_scan_limit
      → length rows.instances ≤ verdict_scan_limit
      → ((explain_call enrich rows max_inlined linked q).per_object
          ≡ per_object_verdicts rows.records rows.instances)
        × ((explain_call enrich rows max_inlined linked q).verdict
            ≡ (overall_verdict (per_object_verdicts rows.records rows.instances)).0)
        × (length (explain_call enrich rows max_inlined linked q).evidence.records ≤ q.limit)
        × (length (explain_call enrich rows max_inlined linked q).evidence.instances ≤ q.limit)
        × ((explain_call enrich rows max_inlined linked q).evidence.truncated
            ≡ (ltb q.limit (length rows.records) || ltb q.limit (length rows.instances)))
  unfolding explain_call
  explain_call_lem rows max_inlined linked q h g =
      let a : (inline_records enrich verdict_scan rows.records).0
          ≡ map (enriched_record enrich false) rows.records =
        scanned_records rows.records h in
      let b : (inline_instances enrich verdict_scan rows.instances).0
          ≡ map (enriched_instance enrich false) rows.instances =
        scanned_instances rows.instances g in
      let per : per_object_verdicts (inline_records enrich verdict_scan rows.records).0
            (inline_instances enrich verdict_scan rows.instances).0
          ≡ per_object_verdicts rows.records rows.instances =
        rw (a, b) (per_object_verdicts-enriched false rows.records rows.instances) in
      (
        per,
        ap (λ x. (overall_verdict x).0) per,
        shown_le (enriched_record enrich true) q.snippets q.limit _,
        shown_le (enriched_instance enrich true) q.snippets q.limit _,
        ap2_or (cut-scanned (enriched_record enrich false) q.limit rows.records a)
            (cut-scanned (enriched_instance enrich false) q.limit rows.instances b),
      )
