-- ===== src/CallTarget.antt =====
-- internal/dwarfingest/calltarget.go: the register that a DW_AT_call_target expression names, and the
-- parameter that is passed in it.
pub mod Register
mod Tests
use herbarium.Base.{
  ℕ, zero, suc, ◌+◌, ◌-◌, ◌*◌, ◌/◌, ◌%◌, ◌^◌, Bool, true, false, not, ◌||◌, ◌&&◌, List, [], ◌∷◌,
  Option, none, some, Bytes, leb, ltb, ◌==◌, if◌then◌else◌, length, take, drop,
}

abbrev pub op_reg0 : ℕ
op_reg0 = 0x50

abbrev pub op_reg31 : ℕ
op_reg31 = 0x6f

abbrev pub op_regx : ℕ
op_regx = 0x90

abbrev pub op_entry_value : ℕ
op_entry_value = 0xa3

abbrev pub arg_reg_order : List ℕ
arg_reg_order = 5 ∷ 4 ∷ 1 ∷ 2 ∷ 8 ∷ 9 ∷ []

-- The loop of `uleb` at index `i`. The bits of `v` stand below `shift`, so that `|` adds.
pub uleb_loop : ℕ → ℕ → ℕ → Bytes → ℕ × ℕ
uleb_loop i shift v [] = (0, 0)
uleb_loop i shift v (c ∷ b) =
    let w = v + c % 128 * 2 ^ shift % 2 ^ 64 in
    let rest = uleb_loop (i + 1) (shift + 7) w b in
    if leb 64 shift then (0, 0) else if c / 128 % 2 == 0 then (w, i + 1) else rest

pub uleb : Bytes → ℕ × ℕ
uleb b = uleb_loop 0 0 0 b

-- the register; no register; or the panic of a slice whose end is negative
pub data Decoded : Type 0 where
  register : ℕ → Decoded
  no_register slice_panic : Decoded

-- `int(n)`, as the two's complement of 64 bits reads it: whether it is negative
abbrev pub negative_int : ℕ → Bool
negative_int n = leb (2 ^ 63) n

-- `decodeRegExpr`. The fuel is the length of the expression, which each nested call has less of.
pub decode : ℕ → Bytes → Decoded
decode fuel [] = no_register
decode zero (op ∷ expr) = no_register
decode (suc fuel) (op ∷ expr) =
    let (n, w) = uleb expr in
    let inner = decode fuel (take n (drop w expr)) in
    if op == op_entry_value
    then (if w == 0
        then no_register
        else if negative_int n
        then slice_panic
        else if ltb (length expr - w) n
        then no_register
        else inner)
    else if leb op_reg0 op && leb op op_reg31 && length expr == 0
    then register (op - op_reg0)
    else if op == op_regx
    then (if w == 0 || not (w == length expr) then no_register else register n)
    else no_register

pub decode_reg_expr : Bytes → Decoded
decode_reg_expr expr = decode (length expr) expr

-- the loop of `argIndexForReg` at index `i`, over the registers that are left
pub arg_index : ℕ → List ℕ → List Bool → ℕ → Option ℕ
arg_index i regs [] reg = none
arg_index i [] (is_int ∷ classes) reg = none
arg_index i (r ∷ regs) (is_int ∷ classes) reg =
    let rest = arg_index (i + 1) regs classes reg in
    if not is_int then none else if r == reg then some i else rest

pub arg_index_for_reg : List Bool → ℕ → Option ℕ
arg_index_for_reg classes reg = arg_index 0 arg_reg_order classes reg
