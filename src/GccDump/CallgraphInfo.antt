-- ===== src/GccDump/CallgraphInfo.antt =====
-- `ParseCI` of internal/gccdump/ci.go, on the lines of the dump, with its expressions and helpers.
-- White space is that of ASCII.
mod Locations
mod Fields
mod Edges
mod Tests
use herbarium.Base.{
  ℕ, zero, suc, ◌-◌, Bool, true, false, not, ◌||◌, ◌&&◌, List, [], ◌∷◌, ◌++◌, Option, none, some,
  Bytes, codes, ◌==◌, if◌then◌else◌, has_prefix, length, lookup, insert, list_beq, list_eq, nat_eq,
  is_space, is_digit, is_word, span, some_of, after, ◌>>=◌,
}
use herbarium.GccDump.{Ci, CiNode, CiEdge, is_empty}
use herbarium.GccDump.CgraphDump.{trim_white, contains_text, atoi}
use herbarium.SourceView.{split_lines}

-- The text up to the quote that ends it, `((?:[^"\\]|\\.)*)"`, and what follows. The flag says
-- whether a backslash stands before.
abbrev with_byte : ℕ → Option (Bytes × Bytes) → Option (Bytes × Bytes)
with_byte c none = none
with_byte c (some (text, rest)) = some (c ∷ text, rest)

unfoldable pub quoted : Bool → Bytes → Option (Bytes × Bytes)
quoted escaped [] = none
quoted true (c ∷ s) = if c == 10 then none else with_byte c (quoted false s)
quoted false (c ∷ s) =
    let more = with_byte c (quoted (c == b'\\') s) in if c == b'"' then some ([], s) else more

pub record Field : Type 0 where
  pub key : Bytes
  pub value : Bytes
  pub rest : Bytes

-- `(\w+)\s*:\s*"((?:[^"\\]|\\.)*)"`
unfoldable pub field_at : Bytes → Option Field
field_at s = do
  key ← some_of is_word s
  t ← after (codes ":") (span is_space key.1).1
  u ← after (codes "\"") (span is_space t).1
  text ← quoted false u
  some (record { key = key.0; value = text.0; rest = text.1 })

-- all matches; the number says how much of the text belongs to one
unfoldable pub fields_in : ℕ → Bytes → List (Bytes × Bytes)
fields_in k [] = []
fields_in (suc k) (c ∷ s) = fields_in k s
fields_in zero (c ∷ s) = elim (field_at (c ∷ s)) [
  | none ↦ fields_in 0 s
  | some f ↦ (f.key, f.value) ∷ fields_in (length s - length f.rest) s
]

-- `strings.ReplaceAll` of a backslash and the byte `b` by the byte `new`. The flag says whether a
-- backslash waits for the next byte.
abbrev byte_written : ℕ → ℕ → Bool → ℕ → Bytes
byte_written b new waits c =
    if waits && c == b
    then new ∷ []
    else (if waits then b'\\' ∷ [] else []) ++ (if c == b'\\' then [] else c ∷ [])

unfoldable pub replace_escape : ℕ → ℕ → Bool → Bytes → Bytes
replace_escape b new waits [] = if waits then b'\\' ∷ [] else []
replace_escape b new waits (c ∷ s) =
    byte_written b new waits c ++ replace_escape b new (not (waits && c == b) && c == b'\\') s

abbrev pub unescape : Bytes → Bytes
unescape v = replace_escape b'"' b'"' false (replace_escape b'n' 10 false v)

abbrev pub set_fields : List (Bytes × Bytes) → List (Bytes × Bytes) → List (Bytes × Bytes)
set_fields out [] = out
set_fields out ((key, value) ∷ fields) = set_fields (insert key (unescape value) out) fields

abbrev pub ci_fields : Bytes → List (Bytes × Bytes)
ci_fields line = set_fields [] (fields_in 0 line)

abbrev or_empty : Option Bytes → Bytes
or_empty none = []
or_empty (some v) = v

abbrev pub field_value : Bytes → List (Bytes × Bytes) → Bytes
field_value key fs = or_empty (lookup key fs)

pub record FileLocation : Type 0 where
  pub file : Bytes
  pub line : ℕ
  pub column : ℕ

abbrev at_end : Bytes → Bytes → Bytes → Option FileLocation
at_end line column [] = some (record { file = []; line = atoi line; column = atoi column })
at_end line column (c ∷ s) = none

-- `:(\d+):(\d+)$`
unfoldable pub location_tail : Bytes → Option FileLocation
location_tail s = do
  t ← after (codes ":") s
  line ← some_of is_digit t
  u ← after (codes ":") line.1
  column ← some_of is_digit u
  at_end line.0 column.0 column.1

abbrev in_file : ℕ → Option FileLocation → Option FileLocation
in_file c none = none
in_file c (some l) = some (record l { file = c ∷ l.file })

-- `^(.*?):(\d+):(\d+)$`
unfoldable pub file_location : Bytes → Option FileLocation
file_location [] = none
file_location (c ∷ s) = elim (location_tail (c ∷ s)) [
  | some l ↦ some l
  | none ↦ if c == 10 then none else in_file c (file_location s)
]

abbrev ended : Bytes → Bytes → Bytes → Option (ℕ × Bytes)
ended count kind [] = some (atoi count, kind)
ended count kind (c ∷ s) = none

-- `^(\d+)\s+bytes\s+\((\w+)\)$`
unfoldable pub stack_usage : Bytes → Option (ℕ × Bytes)
stack_usage s = do
  count ← some_of is_digit s
  spaces ← some_of is_space count.1
  t ← after (codes "bytes") spaces.1
  more ← some_of is_space t
  u ← after (codes "(") more.1
  kind ← some_of is_word u
  v ← after (codes ")") kind.1
  ended count.0 kind.0 v

abbrev if_plural : Bytes → Bytes → Option ℕ
if_plural count s = if is_empty s || list_beq s (codes "s") then some (atoi count) else none

-- `^(\d+)\s+dynamic\s+objects?$`
unfoldable pub dynamic_objects : Bytes → Option ℕ
dynamic_objects s = do
  count ← some_of is_digit s
  spaces ← some_of is_space count.1
  t ← after (codes "dynamic") spaces.1
  more ← some_of is_space t
  u ← after (codes "object") more.1
  if_plural count.0 u

abbrev set_objects : CiNode → Option ℕ → CiNode
set_objects n none = n
set_objects n (some count) = record n { dynamic_objs = count }

abbrev set_stack : CiNode → Bytes → Option (ℕ × Bytes) → CiNode
set_stack n part none = set_objects n (dynamic_objects part)
set_stack n part (some (count, kind)) = record n { stack_bytes = count; stack_kind = kind }

abbrev set_location : CiNode → Bytes → Option FileLocation → CiNode
set_location n part none = set_stack n part (stack_usage part)
set_location n part (some l) =
    if is_empty n.decl_file
    then record n { decl_file = l.file; decl_line = l.line; decl_column = l.column }
    else set_stack n part (stack_usage part)

abbrev node_part : CiNode → Bytes → CiNode
node_part n part = if is_empty part then n else set_location n part (file_location part)

abbrev node_parts : CiNode → List Bytes → CiNode
node_parts n [] = n
node_parts n (part ∷ parts) = node_parts (node_part n (trim_white part)) parts

-- The first line of the label is the name.
abbrev behind_name : CiNode → List Bytes → CiNode
behind_name n [] = n
behind_name n (name ∷ parts) = node_parts n parts

abbrev indirect_call : Bytes
indirect_call = codes "__indirect_call"

unfoldable pub parse_ci_node : List (Bytes × Bytes) → Bytes → CiNode
parse_ci_node fs raw =
    let title = field_value (codes "title") fs in
    behind_name
      (record {
        name = title;
        decl_file = [];
        decl_line = 0;
        decl_column = 0;
        stack_bytes = 0;
        stack_kind = [];
        dynamic_objs = 0;
        is_external = contains_text raw (codes "shape") && contains_text raw (codes "ellipse");
        is_indirect_placeholder = list_beq title indirect_call;
      })
      (split_lines (field_value (codes "label") fs))

abbrev at_site : CiEdge → Option FileLocation → CiEdge
at_site e none = e
at_site e (some l) = record e { site_file = l.file; site_line = l.line; site_column = l.column }

unfoldable pub parse_ci_edge : List (Bytes × Bytes) → CiEdge
parse_ci_edge fs =
    let target = field_value (codes "targetname") fs in
    at_site
      (record {
        source = field_value (codes "sourcename") fs;
        target = target;
        site_file = [];
        site_line = 0;
        site_column = 0;
        indirect = list_beq target indirect_call;
      })
      (file_location (field_value (codes "label") fs))

abbrev set_title : Ci → Bytes → Ci
set_title ci title = if is_empty title then ci else record ci { title = title }

abbrev add_node : Ci → CiNode → Ci
add_node ci n = record ci { nodes = insert n.name n ci.nodes }

abbrev ci_line : Ci → Bytes → Ci
ci_line ci line =
    if is_empty line || list_beq line (codes "}")
    then ci
    else if has_prefix line (codes "graph:")
    then set_title ci (field_value (codes "title") (ci_fields line))
    else if has_prefix line (codes "node:")
    then add_node ci (parse_ci_node (ci_fields line) line)
    else if has_prefix line (codes "edge:")
    then record ci { edges = ci.edges ++ parse_ci_edge (ci_fields line) ∷ [] }
    else ci

unfoldable pub ci_lines : Ci → List Bytes → Ci
ci_lines ci [] = ci
ci_lines ci (line ∷ lines) = ci_lines (ci_line ci (trim_white line)) lines

abbrev pub no_ci : Ci
no_ci = record { title = []; nodes = []; edges = [] }

unfoldable pub parse_ci : List Bytes → Ci
parse_ci lines = ci_lines no_ci lines
