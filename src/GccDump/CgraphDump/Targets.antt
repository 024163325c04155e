-- ===== src/GccDump/CgraphDump/Targets.antt =====
-- The lists of references and calls, read back from the way gcc writes them.
use herbarium.Base.{
  ℕ, zero, suc, ◌-◌, ◌<◌, ◌≡◌, refl, sym, ap, ◌∙◌, inl, inr, arith, Bool, true, false, not, ◌&&◌,
  List, [], ◌∷◌, ◌++◌, none, some, Bytes, codes, ◌==◌, Bool-cases, drop, length, length-append,
  drop-length-append, All, append-nil, append_assoc, is_digit, subst, span, some_of, after,
}
use herbarium.GccDump.CgraphDump.{
  is_name_start, is_name_part, TargetToken, id_after, target_at, split_targets, targets_in,
}

-- an item of such a list: a symbol, and the text behind it
pub record Item : Type 0 where
  pub first : ℕ
  pub more : Bytes
  pub id : Bytes
  pub tail : Bytes

abbrev pub printed : List Item → Bytes
printed [] = []
printed (x ∷ xs) = x.first ∷ (x.more ++ b'/' ∷ (x.id ++ (x.tail ++ printed xs)))

abbrev pub all_of : (ℕ → Bool) → Bytes → Bool
all_of test [] = true
all_of test (c ∷ s) = test c && all_of test s

abbrev starts_digit : Bytes → Bool
starts_digit [] = false
starts_digit (c ∷ s) = is_digit c

-- no slash, and no name at the end
abbrev pub is_closed : Bytes → Bool
is_closed [] = false
is_closed (c ∷ []) = not (is_name_part c) && not (c == b'/')
is_closed (c ∷ d ∷ s) = not (c == b'/') && is_closed (d ∷ s)

-- a name, an id of digits, and a tail that holds no other symbol
pub record IsItem (x : Item) : Type 0 where
  pub starts : is_name_start x.first ≡ true
  pub name : all_of is_name_part x.more ≡ true
  pub id : all_of is_digit x.id ≡ true
  pub some_id : 0 < length x.id
  pub no_digit : starts_digit x.tail ≡ false
  pub closed : is_closed x.tail ≡ true

pub span-append :
    (test : ℕ → Bool) (l : Bytes) (c : ℕ) (s : Bytes)
    → all_of test l ≡ true
    → test c ≡ false
    → span test (l ++ c ∷ s) ≡ (l, c ∷ s)
span-append test [] c s h stop = rw stop refl
span-append test (d ∷ l) c s h stop = elim (Bool-cases (test d)) [
  | inl here ↦ rw (here, span-append test l c s (rw here at h) stop) refl
  | inr away ↦ absurd (ground (arith, away))
]

after_name :
    (t s : Bytes) → is_closed t ≡ true → after (codes "/") (span is_name_part (t ++ s)).1 ≡ none
after_name [] s h = cc
after_name (c ∷ []) s h = elim (Bool-cases (is_name_part c)) [
  | inl part ↦ absurd (ground (arith, part))
  | inr other ↦ rw other (ground arith)
]
after_name (c ∷ d ∷ t) s h = elim (Bool-cases (is_name_part c)) [
  | inl part ↦ rw part (after_name (d ∷ t) s (ground arith))
  | inr other ↦ rw other (ground arith)
]

id_after-none : (name rest : Bytes) → after (codes "/") rest ≡ none → id_after name rest ≡ none
id_after-none name rest h = rw h refl

-- No symbol starts within a closed text.
target_at-closed : (t s : Bytes) → is_closed t ≡ true → target_at (t ++ s) ≡ none
unfolding target_at
target_at-closed [] s h = cc
target_at-closed (c ∷ t) s h = elim (Bool-cases (is_name_start c)) [
  | inl starts ↦ rw starts (
      id_after-none (span is_name_part (c ∷ (t ++ s))).0 (span is_name_part (c ∷ (t ++ s))).1
        (after_name (c ∷ t) s h))
  | inr other ↦ rw other refl
]

split_targets-step :
    (c : ℕ) (s : Bytes)
    → target_at (c ∷ s) ≡ none
    → split_targets 0 (c ∷ s) ≡ (c ∷ (split_targets 0 s).0, (split_targets 0 s).1)
unfolding split_targets
split_targets-step c s h = rw (h, split_targets) refl

split_targets-closed :
    (t s : Bytes)
    → is_closed t ≡ true
    → split_targets 0 (t ++ s) ≡ (t ++ (split_targets 0 s).0, (split_targets 0 s).1)
split_targets-closed [] s h = cc
split_targets-closed (c ∷ []) s h = split_targets-step c s (target_at-closed (c ∷ []) s h)
split_targets-closed (c ∷ d ∷ t) s h =
    let ih = split_targets-closed (d ∷ t) s (ground arith) in
    split_targets-step c (d ∷ (t ++ s)) (target_at-closed (c ∷ d ∷ t) s h)
    ∙ ap (λ x. (c ∷ x.0, x.1)) ih

split_targets-drop : (k : ℕ) (s : Bytes) → split_targets k s ≡ split_targets 0 (drop k s)
unfolding split_targets
split_targets-drop zero s = refl
split_targets-drop (suc k) [] = refl
split_targets-drop (suc k) (c ∷ s) = split_targets-drop k s

slash_ends : is_name_part b'/' ≡ false
slash_ends = refl

is_name_part_of_start : (c : ℕ) → is_name_start c ≡ true → is_name_part c ≡ true
is_name_part_of_start c h = ground arith

some_of-append :
    (test : ℕ → Bool) (l : Bytes) (c : ℕ) (s : Bytes)
    → 0 < length l
    → all_of test l ≡ true
    → test c ≡ false
    → some_of test (l ++ c ∷ s) ≡ some (l, c ∷ s)
some_of-append test [] c s n h stop = elim n [ ]
some_of-append test (d ∷ l) c s n h stop =
    let here : test d ≡ true = ground arith in
    rw here (ap some (sym (rw here refl) ∙ span-append test (d ∷ l) c s h stop))

target_at-start :
    (c : ℕ) (s : Bytes)
    → is_name_start c ≡ true
    → target_at (c ∷ s) ≡ id_after (span is_name_part (c ∷ s)).0 (span is_name_part (c ∷ s)).1
unfolding target_at
target_at-start c s h = rw h refl

id_after-some :
    (name rest id tail : Bytes)
    → some_of is_digit rest ≡ some (id, tail)
    → id_after name (b'/' ∷ rest) ≡ some (record { name = name; id = id; rest = tail })
id_after-some name rest id tail h = rw h refl

target_at-printed :
    (x : Item) (d : ℕ) (s : Bytes)
    → IsItem x
    → is_digit d ≡ false
    → target_at (x.first ∷ (x.more ++ b'/' ∷ (x.id ++ d ∷ s)))
      ≡ some (record { name = x.first ∷ x.more; id = x.id; rest = d ∷ s })
target_at-printed x d s ok stop =
    let text = x.id ++ d ∷ s in
    let part = is_name_part_of_start x.first ok.starts in
    let name = span-append is_name_part (x.first ∷ x.more) b'/' text (rw part ok.name) slash_ends in
    target_at-start x.first (x.more ++ b'/' ∷ text) ok.starts
    ∙ ap (λ p. id_after p.0 p.1) name
    ∙ id_after-some (x.first ∷ x.more) text x.id (d ∷ s)
        (some_of-append is_digit x.id d s ok.some_id ok.id stop)

split_targets-target :
    (c : ℕ) (s : Bytes) (t : TargetToken)
    → target_at (c ∷ s) ≡ some t
    → split_targets 0 (c ∷ s) ≡ (
      [],
      (t.id, (split_targets (length s - length t.rest) s).0)
          ∷ (split_targets (length s - length t.rest) s).1,
    )
unfolding split_targets
split_targets-target c s t h = rw (h, split_targets) refl

-- what follows a prefix, by the lengths
drop-rest : (l rest : Bytes) → drop (length (l ++ rest) - length rest) (l ++ rest) ≡ rest
drop-rest l rest =
    let n : length (l ++ rest) - length rest ≡ length l = omega (arith, length-append l rest) in
    rw n (drop-length-append l rest)

split_targets-item :
    (x : Item) (d : ℕ) (s : Bytes)
    → IsItem x
    → is_digit d ≡ false
    → split_targets 0 (x.first ∷ (x.more ++ b'/' ∷ (x.id ++ d ∷ s)))
      ≡ ([], (x.id, (split_targets 0 (d ∷ s)).0) ∷ (split_targets 0 (d ∷ s)).1)
split_targets-item x d s ok stop =
    let text = x.more ++ b'/' ∷ (x.id ++ d ∷ s) in
    let t : TargetToken = record { name = x.first ∷ x.more; id = x.id; rest = d ∷ s } in
    let k = length text - length (d ∷ s) in
    let regroup : (x.more ++ b'/' ∷ x.id) ++ d ∷ s ≡ text =
      append_assoc x.more (b'/' ∷ x.id) (d ∷ s) in
    let left : drop k text ≡ d ∷ s =
      subst (λ y. drop (length y - length (d ∷ s)) y ≡ d ∷ s) regroup
        (drop-rest (x.more ++ b'/' ∷ x.id) (d ∷ s)) in
    split_targets-target x.first text t (target_at-printed x d s ok stop)
    ∙ ap (λ y. ([], (x.id, y.0) ∷ y.1)) (split_targets-drop k text ∙ ap (split_targets 0) left)

abbrev pub pairs : List Item → List (Bytes × Bytes)
pairs [] = []
pairs (x ∷ xs) = (x.id, x.tail) ∷ pairs xs

split_targets-tail :
    (x : Item) (t s : Bytes)
    → IsItem x
    → is_closed t ≡ true
    → starts_digit t ≡ false
    → split_targets 0 (x.first ∷ (x.more ++ b'/' ∷ (x.id ++ (t ++ s))))
      ≡ ([], (x.id, t ++ (split_targets 0 s).0) ∷ (split_targets 0 s).1)
split_targets-tail x [] s ok h n = cc
split_targets-tail x (d ∷ t) s ok h n =
    split_targets-item x d (t ++ s) ok n
    ∙ ap (λ y. ([], (x.id, y.0) ∷ y.1)) (split_targets-closed (d ∷ t) s h)

pub split_targets-printed :
    (xs : List Item) → All IsItem xs → split_targets 0 (printed xs) ≡ ([], pairs xs)
unfolding split_targets
split_targets-printed [] h = refl
split_targets-printed (x ∷ xs) (ok, h) =
    split_targets-tail x x.tail (printed xs) ok ok.closed ok.no_digit
    ∙ ap (λ y. ([], (x.id, x.tail ++ y.0) ∷ y.1)) (split_targets-printed xs h)
    ∙ ap (λ y. ([], (x.id, y) ∷ pairs xs)) (append-nil x.tail)

pub targets_in-printed :
    (xs : List Item) → All IsItem xs → targets_in (b' ' ∷ printed xs) ≡ pairs xs
targets_in-printed xs h =
    ap (λ y. y.1)
      (split_targets-closed (b' ' ∷ []) (printed xs) refl
        ∙ ap (λ y. (b' ' ∷ y.0, y.1)) (split_targets-printed xs h))
