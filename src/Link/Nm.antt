-- ===== src/Link/Nm.antt =====
-- internal/linkplane/nm.go: the output of nm, and which objects define a name.
pub mod Observed
mod Tests
use herbarium.Base.{
  ℕ, ◌≡◌, refl, sym, ap, ◌∙◌, inl, inr, arith, Bool, true, false, not, ◌&&◌, ◌||◌, List, [], ◌∷◌,
  ◌++◌, Option, none, some, Bytes, if◌then◌else◌, Bool-cases, Option-cases, lookup, insert,
  lookup-insert, list_beq, list_beq_iff, list_eq, nat_eq, is_space, append-nil, append_assoc,
  none_ne, some_injective,
}
use herbarium.GccDump.{is_empty}
use herbarium.Link.{NmSymbol, ObjectDef}

-- `strings.Fields`, with `cur` the field that is being read
abbrev fields_from : Bytes → Bytes → List Bytes
fields_from cur [] = if is_empty cur then [] else cur ∷ []
fields_from cur (c ∷ s) =
    let ended = fields_from [] s in
    let longer = fields_from (cur ++ c ∷ []) s in
    if is_space c then (if is_empty cur then ended else cur ∷ ended) else longer

abbrev pub fields : Bytes → List Bytes
fields s = fields_from [] s

-- `parse_size` is `strconv.ParseInt(s, 16, 64)`, of a size, which nm prints without a sign.
module _ (parse_size : Bytes → Option ℕ) where
  abbrev size_of : Option ℕ → ℕ
  size_of none = 0
  size_of (some n) = n

  -- the symbol of the fields of a line, if they are enough
  pub symbol_of : List Bytes → Option NmSymbol
  symbol_of [] = none
  symbol_of (name ∷ []) = none
  symbol_of (name ∷ kind ∷ []) = some (record { name = name; kind = kind; address = []; size = 0 })
  symbol_of (name ∷ kind ∷ address ∷ []) =
      some (record { name = name; kind = kind; address = address; size = 0 })
  symbol_of (name ∷ kind ∷ address ∷ size ∷ more) =
      some
        (record { name = name; kind = kind; address = address; size = size_of (parse_size size) })

  abbrev with_symbol : Option NmSymbol → List NmSymbol → List NmSymbol
  with_symbol none syms = syms
  with_symbol (some sym) syms = sym ∷ syms

  -- The fields of a line do not depend on the space around it, and a line of space has none.
  pub parse_nm_posix : List Bytes → List NmSymbol
  parse_nm_posix [] = []
  parse_nm_posix (line ∷ lines) = with_symbol (symbol_of (fields line)) (parse_nm_posix lines)

abbrev pub Defs : Type 0
Defs = List (Bytes × List ObjectDef)

abbrev pub listed : Option (List ObjectDef) → List ObjectDef
listed none = []
listed (some ds) = ds

-- `out[name]`
abbrev pub defs_at : Bytes → Defs → List ObjectDef
defs_at name out = listed (lookup name out)

-- one symbol of an object
abbrev pub add_def : Bytes → Defs → NmSymbol → Defs
add_def obj out s =
    if is_empty s.kind || is_empty s.name
    then out
    else insert s.name (defs_at s.name out ++ record { object = obj; kind = s.kind } ∷ []) out

pub symbol_loop : Bytes → Defs → List NmSymbol → Defs
symbol_loop obj out [] = out
symbol_loop obj out (s ∷ ss) = symbol_loop obj (add_def obj out s) ss

abbrev pub add_object : Bytes → Defs → Option (List NmSymbol) → Option Defs
add_object obj out none = none
add_object obj out (some syms) = some (symbol_loop obj out syms)

-- `run` is `RunNMDefined`, which fails on some objects.
module _ (run : Bytes → Option (List NmSymbol)) where
  abbrev pub then_scan : (Defs → Option Defs) → Option Defs → Option Defs
  then_scan next none = none
  then_scan next (some out) = next out

  pub object_loop : List Bytes → Defs → Option Defs
  object_loop [] out = some out
  object_loop (obj ∷ objs) out = then_scan (object_loop objs) (add_object obj out (run obj))

  pub scan_object_defs : List Bytes → Option Defs
  scan_object_defs objects = object_loop objects []
