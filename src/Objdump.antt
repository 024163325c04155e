-- ===== src/Objdump.antt =====
-- internal/linkplane/objdump.go: the direct calls in a disassembly, as the lines of its text.
mod Labels
mod Tests
use herbarium.Base.{
  ℕ, ◌+◌, ◌-◌, ◌^◌, Bool, true, false, not, ◌||◌, List, [], ◌∷◌, ◌++◌, Option, none, some, Bytes,
  codes, ltb, leb, ◌==◌, if◌then◌else◌, is_space, is_hex, span, some_of, after, hex_from, ◌>>=◌,
}

pub record ObjdumpEdge : Type 0 where
  pub caller : Bytes
  pub caller_addr : ℕ
  pub callee : Bytes
  pub callee_addr : ℕ

-- up to the first `@`
pub callee_stripped : ObjdumpEdge → Bytes
callee_stripped e = (span (λ c. not (c == b'@')) e.callee).0

abbrev in_angles : ℕ → Bool
in_angles c = not (c == b'>')

abbrev pub max_uint64 : ℕ
max_uint64 = 2 ^ 64 - 1

-- `strconv.ParseUint(digits, 16, 64)`, whose error the code drops: out of range it is the maximum.
abbrev pub parse_uint : Bytes → ℕ
parse_uint digits = let n = hex_from 0 digits in if leb n max_uint64 then n else max_uint64

-- `odFuncRe`: ^([0-9a-fA-F]+)\s+<([^>]+)>:$
pub func_label : Bytes → Option (Bytes × Bytes)
func_label line = do
  (addr, s) ← some_of is_hex line
  (_, s) ← some_of is_space s
  s ← after (codes "<") s
  (name, s) ← some_of in_angles s
  s ← after (codes ">:") s
  elim s [ [] ↦ some (addr, name) | c ∷ cs ↦ none ]

abbrev call_or_jump : Bytes → Option Bytes
call_or_jump s = elim (after (codes "call") s) [ some t ↦ some t | none ↦ after (codes "jmp") s ]

-- `odDirectCallRe`: ^\s+[0-9a-fA-F]+:\s+(?:call|jmp)\s+([0-9a-fA-F]+)\s+<([^>]+)>
pub direct_call : Bytes → Option (Bytes × Bytes)
direct_call line = do
  (_, s) ← some_of is_space line
  (_, s) ← some_of is_hex s
  s ← after (codes ":") s
  (_, s) ← some_of is_space s
  s ← call_or_jump s
  (_, s) ← some_of is_space s
  (addr, s) ← some_of is_hex s
  (_, s) ← some_of is_space s
  s ← after (codes "<") s
  (name, s) ← some_of in_angles s
  _ ← after (codes ">") s
  some (addr, name)

-- the variables of `parseObjdumpStream`
pub record Stream : Type 0 where
  pub edges : List ObjdumpEdge
  pub cur_func : Bytes
  pub cur_func_addr : ℕ

abbrev pub is_empty_name : Bytes → Bool
is_empty_name [] = true
is_empty_name (c ∷ s) = false

abbrev pub add_call : Stream → Option (Bytes × Bytes) → Stream
add_call s none = s
add_call s (some (addr, name)) = record s {
  edges =
      s.edges
      ++ record {
        caller = s.cur_func;
        caller_addr = s.cur_func_addr;
        callee = name;
        callee_addr = parse_uint addr;
      }
        ∷ [];
}

abbrev pub read_as : Stream → Option (Bytes × Bytes) → Option (Bytes × Bytes) → Stream
read_as s (some (addr, name)) call = record s { cur_func = name; cur_func_addr = parse_uint addr }
read_as s none call = if is_empty_name s.cur_func then s else add_call s call

-- one line
abbrev pub read_line : Stream → Bytes → Stream
read_line s line = read_as s (func_label line) (direct_call line)

pub line_loop : Stream → List Bytes → Stream
line_loop s [] = s
line_loop s (line ∷ lines) = line_loop (read_line s line) lines

pub parse_objdump : List Bytes → List ObjdumpEdge
parse_objdump lines =
    (line_loop (record { edges = []; cur_func = []; cur_func_addr = 0 }) lines).edges
