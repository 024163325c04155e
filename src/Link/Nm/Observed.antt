-- ===== src/Link/Nm/Observed.antt =====
-- The observations of a name are those in the objects, in the order of the objects.
use mathlib.Core.List.Memᴰ
use herbarium.Base.{
  Memᴰ, ◌≡◌, refl, sym, ap, ◌∙◌, inl, inr, arith, true, false, not, ◌&&◌, ◌||◌, List, [], ◌∷◌, ◌++◌,
  Option, none, some, Bytes, if◌then◌else◌, Bool-cases, lookup, insert, lookup-insert, list_beq,
  list_beq_iff, list_eq, nat_eq, append-nil, append_assoc, none_ne, some_injective,
}
use herbarium.GccDump.{is_empty}
use herbarium.Link.{NmSymbol, ObjectDef}
use herbarium.Link.Nm.{
  Defs, defs_at, listed, add_def, symbol_loop, add_object, then_scan, object_loop, scan_object_defs,
}

module _ (run : Bytes → Option (List NmSymbol)) where
  -- the observations of a name among the symbols of an object
  abbrev pub defs_in : Bytes → Bytes → List NmSymbol → List ObjectDef
  defs_in name obj [] = []
  defs_in name obj (s ∷ ss) =
      let rest = defs_in name obj ss in
      if list_beq s.name name && not (is_empty s.kind)
      then record { object = obj; kind = s.kind } ∷ rest
      else rest

  abbrev symbols_run : Option (List NmSymbol) → List NmSymbol
  symbols_run none = []
  symbols_run (some syms) = syms

  -- the observations of a name in the objects, one object after the other
  abbrev pub defs_in_all : Bytes → List Bytes → List ObjectDef
  defs_in_all name [] = []
  defs_in_all name (obj ∷ objs) = defs_in name obj (symbols_run (run obj)) ++ defs_in_all name objs

  defs_at-insert :
      (k j : Bytes) (ds : List ObjectDef) (out : Defs)
      → defs_at j (insert k ds out) ≡ (if list_beq k j then ds else defs_at j out)
  defs_at-insert k j ds out = elim (Bool-cases (list_beq k j)) [
    | inl same ↦
        let at : lookup j (insert k ds out) ≡ some ds = lookup-insert k j ds out ∙ rw same refl in
        rw same (ap listed at)
    | inr other ↦
        let at : lookup j (insert k ds out) ≡ lookup j out =
          lookup-insert k j ds out ∙ rw other refl in
        rw other (ap listed at)
  ]

  false_ne : false ≡ true → ⊥
  false_ne e = cc

  empty_differs : (a b : Bytes) → is_empty a ≡ true → is_empty b ≡ false → list_beq a b ≡ false
  empty_differs [] [] h g = g
  empty_differs [] (c ∷ b) h g = refl
  empty_differs (c ∷ a) b h g = absurd (false_ne h)

  add_def-defs_at :
      (name obj : Bytes) (s : NmSymbol) (out : Defs)
      → is_empty name ≡ false
      → defs_at name (add_def obj out s) ≡ defs_at name out ++ defs_in name obj (s ∷ [])
  add_def-defs_at name obj s out h = elim (Bool-cases (is_empty s.kind || is_empty s.name)) [
    | inl skip ↦
        let differs : (list_beq s.name name && not (is_empty s.kind)) ≡ false =
          ground (arith, empty_differs s.name name) in
        rw (skip, differs) (sym (append-nil (defs_at name out)))
    | inr kept ↦
        let ds : List ObjectDef =
          defs_at s.name out ++ record { object = obj; kind = s.kind } ∷ [] in
        elim (Bool-cases (list_beq s.name name)) [
          | inl same ↦
              let is_name : s.name ≡ name = (list_beq_iff s.name name).0 same in
              let test : (list_beq s.name name && not (is_empty s.kind)) ≡ true = ground arith in
              let at : defs_at name (insert s.name ds out) ≡ ds =
                defs_at-insert s.name name ds out ∙ rw same refl in
              rw (kept, test)
                (at
                  ∙ ap (λ x. defs_at x out ++ record { object = obj; kind = s.kind } ∷ []) is_name)
          | inr other ↦
              let test : (list_beq s.name name && not (is_empty s.kind)) ≡ false = ground arith in
              let at : defs_at name (insert s.name ds out) ≡ defs_at name out =
                defs_at-insert s.name name ds out ∙ rw other refl in
              rw (kept, test) (at ∙ sym (append-nil (defs_at name out)))
        ]
  ]

  one_more :
      (name obj : Bytes) (s : NmSymbol) (ss : List NmSymbol)
      → defs_in name obj (s ∷ []) ++ defs_in name obj ss ≡ defs_in name obj (s ∷ ss)
  one_more name obj s ss = elim (Bool-cases (list_beq s.name name && not (is_empty s.kind))) [
    | inl named ↦ rw named refl
    | inr other ↦ rw other refl
  ]

  symbol_loop-defs_at :
      (name obj : Bytes) (ss : List NmSymbol) (out : Defs)
      → is_empty name ≡ false
      → defs_at name (symbol_loop obj out ss) ≡ defs_at name out ++ defs_in name obj ss
  unfolding symbol_loop
  symbol_loop-defs_at name obj [] out h = sym (append-nil (defs_at name out))
  symbol_loop-defs_at name obj (s ∷ ss) out h =
      symbol_loop-defs_at name obj ss (add_def obj out s) h
      ∙ ap (λ x. x ++ defs_in name obj ss) (add_def-defs_at name obj s out h)
      ∙ append_assoc (defs_at name out) (defs_in name obj (s ∷ [])) (defs_in name obj ss)
      ∙ ap (◌++◌ (defs_at name out)) (one_more name obj s ss)

  -- one object, when what holds for the others is known
  object_step :
      (name obj : Bytes) (objs : List Bytes) (o : Option (List NmSymbol)) (out found : Defs)
      → is_empty name ≡ false
      → ((next : Defs)
          → object_loop run objs next ≡ some found
          → defs_at name found ≡ defs_at name next ++ defs_in_all name objs)
      → then_scan run (object_loop run objs) (add_object obj out o) ≡ some found
      → defs_at name found
        ≡ defs_at name out ++ (defs_in name obj (symbols_run o) ++ defs_in_all name objs)
  object_step name obj objs none out found h rest e = absurd (none_ne e)
  object_step name obj objs (some syms) out found h rest e =
      rest (symbol_loop obj out syms) e
      ∙ ap (λ x. x ++ defs_in_all name objs) (symbol_loop-defs_at name obj syms out h)
      ∙ append_assoc (defs_at name out) (defs_in name obj syms) (defs_in_all name objs)

  object_loop-defs_at :
      (name : Bytes) (objs : List Bytes) (out found : Defs)
      → is_empty name ≡ false
      → object_loop run objs out ≡ some found
      → defs_at name found ≡ defs_at name out ++ defs_in_all name objs
  unfolding object_loop
  object_loop-defs_at name [] out found h e =
      ap (defs_at name) (sym (some_injective e)) ∙ sym (append-nil (defs_at name out))
  object_loop-defs_at name (obj ∷ objs) out found h e =
      object_step name obj objs (run obj) out found h
        (λ next f. object_loop-defs_at name objs next found h f) e

-- Where nm runs on every object, the observations of a name are those in the objects with a kind, in
-- the order of the objects.
pub scan_object_defs_lem :
    (run : Bytes → Option (List NmSymbol)) (objects : List Bytes) (found : Defs) (name : Bytes)
    → scan_object_defs run objects ≡ some found
    → is_empty name ≡ false
    → defs_at name found ≡ defs_in_all run name objects
unfolding scan_object_defs
scan_object_defs_lem run objects found name e h = object_loop-defs_at run name objects [] found h e

then_scan-none :
    (run : Bytes → Option (List NmSymbol)) (obj : Bytes) (objs : List Bytes) (o : Option Defs)
    → ((next : Defs) → object_loop run objs next ≡ none)
    → then_scan run (object_loop run objs) o ≡ none
then_scan-none run obj objs none h = refl
then_scan-none run obj objs (some out) h = h out

object_loop-none :
    (run : Bytes → Option (List NmSymbol)) (objs : List Bytes) (obj : Bytes) (out : Defs)
    → Memᴰ obj objs
    → run obj ≡ none
    → object_loop run objs out ≡ none
unfolding object_loop
object_loop-none run [] obj out m h = absurd (Memᴰ.not-nil m)
object_loop-none run (x ∷ objs) obj out m h = elim (Memᴰ.cases_cons m) [
  | inl here ↦
      let fails : run x ≡ none = ap run (sym here) ∙ h in
      ap (λ o. then_scan run (object_loop run objs) (add_object x out o)) fails
  | inr there ↦
      then_scan-none run x objs (add_object x out (run x))
        (λ next. object_loop-none run objs obj next there h)
]

-- Where nm fails on one of the objects there is no answer.
pub scan_object_defs-none :
    (run : Bytes → Option (List NmSymbol)) (objects : List Bytes) (obj : Bytes)
    → Memᴰ obj objects
    → run obj ≡ none
    → scan_object_defs run objects ≡ none
unfolding scan_object_defs
scan_object_defs-none run objects obj m h = object_loop-none run objects obj [] m h
