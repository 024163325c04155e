-- ===== src/Link/Lookup.antt =====
-- `buildSymbolLookup`: a declaration never hides a definition of the same name.
use mathlib.Core.List.Memᴰ
use herbarium.Base.{
  ◌⊎◌, ◌≡◌, refl, sym, ap, subst, inl, inr, arith, Bool, true, false, List, [], ◌∷◌, Option, none,
  some, Bytes, Option-cases, Memᴰ, lookup, lookup-insert, list_eq, nat_eq, list_beq_iff,
}
use herbarium.GccDump.{is_empty}
use herbarium.Link.{NameEntry, SymbolRow, put_name, put_names, put_rows, name_to_id}

-- the name is entered, with a row that has a definition
abbrev is_defined : Option NameEntry → Bool
is_defined none = false
is_defined (some e) = e.has_def

put_name-defined :
    (m : List (Bytes × NameEntry)) (n j : Bytes) (e : NameEntry)
    → is_defined (lookup j m) ≡ true
    → is_defined (lookup j (put_name m n e)) ≡ true
unfolding put_name
put_name-defined m n j e h = elim (Option-cases (lookup n m)) [
  | inl q ↦ ground (arith, lookup-insert n j e m, list_beq_iff n j)
  | inr (cur, q) ↦ ground (arith, lookup-insert n j e m, list_beq_iff n j)
]

put_name-enters :
    (m : List (Bytes × NameEntry)) (n : Bytes) (e : NameEntry)
    → is_empty n ≡ false
    → e.has_def ≡ true
    → is_defined (lookup n (put_name m n e)) ≡ true
unfolding put_name
put_name-enters m n e named h = elim (Option-cases (lookup n m)) [
  | inl q ↦ ground (arith, lookup-insert n n e m, list_beq_iff n n)
  | inr (cur, q) ↦ ground (arith, lookup-insert n n e m, list_beq_iff n n)
]

put_names-defined :
    (e : NameEntry) (m : List (Bytes × NameEntry)) (ns : List Bytes) (j : Bytes)
    → is_defined (lookup j m) ≡ true
    → is_defined (lookup j (put_names e m ns)) ≡ true
unfolding put_names
put_names-defined e m [] j h = h
put_names-defined e m (n ∷ ns) j h =
    put_names-defined e (put_name m n e) ns j (put_name-defined m n j e h)

put_names-enters :
    (e : NameEntry) (m : List (Bytes × NameEntry)) (ns : List Bytes) (j : Bytes)
    → is_empty j ≡ false
    → e.has_def ≡ true
    → Memᴰ j ns
    → is_defined (lookup j (put_names e m ns)) ≡ true
unfolding put_names
put_names-enters e m [] j named h at = absurd (Memᴰ.not-nil at)
put_names-enters e m (n ∷ ns) j named h at = elim (Memᴰ.cases_cons at) [
  | inl here ↦ put_names-defined e (put_name m n e) ns j (
      subst (λ x. is_defined (lookup j (put_name m x e)) ≡ true) here
        (put_name-enters m j e named h))
  | inr there ↦ put_names-enters e (put_name m n e) ns j named h there
]

abbrev entry_of : SymbolRow → NameEntry
entry_of r = record { id = r.id; has_def = r.has_def }

abbrev pub names_of : SymbolRow → List Bytes
names_of r = r.name ∷ r.linkage_names

put_rows-defined :
    (m : List (Bytes × NameEntry)) (rows : List SymbolRow) (j : Bytes)
    → is_defined (lookup j m) ≡ true
    → is_defined (lookup j (put_rows m rows)) ≡ true
unfolding put_rows
put_rows-defined m [] j h = h
put_rows-defined m (r ∷ rows) j h =
    put_rows-defined (put_names (entry_of r) m (names_of r)) rows j
      (put_names-defined (entry_of r) m (names_of r) j h)

put_rows-enters :
    (m : List (Bytes × NameEntry)) (rows : List SymbolRow) (r : SymbolRow) (j : Bytes)
    → is_empty j ≡ false
    → r.has_def ≡ true
    → Memᴰ j (names_of r)
    → Memᴰ r rows
    → is_defined (lookup j (put_rows m rows)) ≡ true
unfolding put_rows
put_rows-enters m [] r j named h at m_r = absurd (Memᴰ.not-nil m_r)
put_rows-enters m (q ∷ rows) r j named h at m_r = elim (Memᴰ.cases_cons m_r) [
  | inl here ↦ put_rows-defined (put_names (entry_of q) m (names_of q)) rows j (
      subst (λ x. is_defined (lookup j (put_names (entry_of x) m (names_of x))) ≡ true) here
        (put_names-enters (entry_of r) m (names_of r) j named h at))
  | inr there ↦ put_rows-enters (put_names (entry_of q) m (names_of q)) rows r j named h at there
]

-- every entry is that of a row, at one of its names
abbrev IsFrom : List SymbolRow → Bytes → NameEntry → Type 0
IsFrom rows j e =
    (r : SymbolRow) × Memᴰ r rows × Memᴰ j (names_of r) × (r.id ≡ e.id) × (r.has_def ≡ e.has_def)

abbrev AllFrom : List SymbolRow → List (Bytes × NameEntry) → Type 0
AllFrom rows m = (j : Bytes) (e : NameEntry) → lookup j m ≡ some e → IsFrom rows j e

put_name-cases :
    (m : List (Bytes × NameEntry)) (n j : Bytes) (e f : NameEntry)
    → lookup j (put_name m n e) ≡ some f
    → (n ≡ j × e ≡ f) ⊎ (lookup j m ≡ some f)
unfolding put_name
put_name-cases m n j e f p = elim (Option-cases (lookup n m)) [
  | inl q ↦ ground (arith, lookup-insert n j e m, list_beq_iff n j)
  | inr (cur, q) ↦ ground (arith, lookup-insert n j e m, list_beq_iff n j)
]

put_name-AllFrom :
    (rows : List SymbolRow) (m : List (Bytes × NameEntry)) (n : Bytes) (e : NameEntry)
    → IsFrom rows n e
    → AllFrom rows m
    → AllFrom rows (put_name m n e)
put_name-AllFrom rows m n e from all j f h = elim (put_name-cases m n j e f h) [
  | inl (is_n, is_e) ↦ subst (λ x. IsFrom rows x f) is_n (subst (IsFrom rows n) is_e from)
  | inr old ↦ all j f old
]

put_names-AllFrom :
    (rows : List SymbolRow) (r : SymbolRow)
    → Memᴰ r rows
    → (m : List (Bytes × NameEntry)) (ns : List Bytes)
    → ((n : Bytes) → Memᴰ n ns → Memᴰ n (names_of r))
    → AllFrom rows m
    → AllFrom rows (put_names (entry_of r) m ns)
unfolding put_names
put_names-AllFrom rows r at m [] sub all = all
put_names-AllFrom rows r at m (n ∷ ns) sub all =
    put_names-AllFrom rows r at (put_name m n (entry_of r)) ns (λ x h. sub x (Memᴰ.tail h))
      (put_name-AllFrom rows m n (entry_of r) (r, at, sub n (Memᴰ.head refl), refl, refl) all)

put_rows-AllFrom :
    (all_rows rows : List SymbolRow) (m : List (Bytes × NameEntry))
    → ((r : SymbolRow) → Memᴰ r rows → Memᴰ r all_rows)
    → AllFrom all_rows m
    → AllFrom all_rows (put_rows m rows)
unfolding put_rows
put_rows-AllFrom all_rows [] m sub all = all
put_rows-AllFrom all_rows (r ∷ rows) m sub all =
    put_rows-AllFrom all_rows rows (put_names (entry_of r) m (names_of r))
      (λ x h. sub x (Memᴰ.tail h))
      (put_names-AllFrom all_rows r (sub r (Memᴰ.head refl)) m (names_of r) (λ n h. h) all)

-- A name that a row with a definition carries, as its own or as a linkage name, is resolved to a
-- row with a definition that carries it too, whatever rows without one carry it.
pub name_to_id_defined :
    (rows : List SymbolRow) (r : SymbolRow) (name : Bytes)
    → Memᴰ r rows
    → r.has_def ≡ true
    → is_empty name ≡ false
    → Memᴰ name (names_of r)
    → (q : SymbolRow) × Memᴰ q rows
      × Memᴰ name (names_of q)
      × (q.has_def ≡ true)
      × (name_to_id rows name ≡ some q.id)
unfolding name_to_id
name_to_id_defined rows r name at h named carried =
    let defined : is_defined (lookup name (put_rows [] rows)) ≡ true =
      put_rows-enters [] rows r name named h carried at in
    elim (Option-cases (lookup name (put_rows [] rows))) [
      | inl missing ↦ absurd (false_ne (rw missing at defined))
      | inr (e, found) ↦
          let (q, at_q, carries, is_id, is_def) =
            put_rows-AllFrom rows rows [] (λ x m. m) (λ j f p. absurd (none_ne p)) name e found in
          (q, at_q, carries, ground arith, rw (found, name_to_id) (ap some (sym is_id)))
    ]
  where
    none_ne : {e : NameEntry} → none ≡ some e → ⊥
    none_ne p = cc

    false_ne : false ≡ true → ⊥
    false_ne p = cc
