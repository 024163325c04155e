-- ===== src/CallTarget/Tests.antt =====
-- Expressions that name a register, and the theorem at the second argument register.
use herbarium.Base.{◌≡◌, ◌↔◌, refl, true, false, [], ◌∷◌, some}
use herbarium.CallTarget.{
  arg_reg_order, arg_index_for_reg, register, slice_panic, decode_reg_expr, decode, uleb, uleb_loop,
}
use herbarium.CallTarget.Register.{IsPassedIn, arg_index_for_reg_lem}

entry_value_of_rsi : decode_reg_expr (0xa3 ∷ 1 ∷ 0x54 ∷ []) ≡ register 4
unfolding decode_reg_expr decode uleb uleb_loop
entry_value_of_rsi = refl

-- a length of 2 ^ 63
huge_length :
    decode_reg_expr (0xa3 ∷ 128 ∷ 128 ∷ 128 ∷ 128 ∷ 128 ∷ 128 ∷ 128 ∷ 128 ∷ 128 ∷ 1 ∷ [])
    ≡ slice_panic
unfolding decode_reg_expr decode uleb uleb_loop
huge_length = refl

arg_index_for_reg_lem_example :
    (arg_index_for_reg (true ∷ true ∷ false ∷ []) 4 ≡ some 1)
    ↔ IsPassedIn 1 arg_reg_order (true ∷ true ∷ false ∷ []) 4
arg_index_for_reg_lem_example = arg_index_for_reg_lem (true ∷ true ∷ false ∷ []) 4 1
