-- ===== src/Objdump/Tests.antt =====
-- Lines of a disassembly, as in the comments of the source.
use herbarium.Base.{◌≡◌, refl, [], ◌∷◌, ◌++◌, Bytes, codes}
use herbarium.Objdump.{
  ObjdumpEdge, callee_stripped, func_label, direct_call, line_loop, parse_objdump,
}
use herbarium.Objdump.Labels.{last_label, edges_at, parse_objdump-last}

abbrev label_line : Bytes
label_line = codes "0000000000001040 <main>:"

abbrev call_line : Bytes
call_line = codes "    108b:\tcall   1030 <printf@plt>"

abbrev indirect_line : Bytes
indirect_line = codes "    105c:\tcall   *0x2d5e(%rip)        # 3dc0 <g_ops>"

abbrev edge : ObjdumpEdge
edge = record {
  caller = codes "main";
  caller_addr = 4160;
  callee = codes "printf@plt";
  callee_addr = 4144;
}

one_edge : parse_objdump (call_line ∷ label_line ∷ indirect_line ∷ call_line ∷ []) ≡ edge ∷ []
unfolding parse_objdump line_loop func_label direct_call
one_edge = refl

stripped : callee_stripped edge ≡ codes "printf"
unfolding callee_stripped
stripped = refl

parse_objdump-last_example :
    parse_objdump ((label_line ∷ indirect_line ∷ []) ++ call_line ∷ [])
    ≡ parse_objdump (label_line ∷ indirect_line ∷ [])
      ++ edges_at (last_label (label_line ∷ indirect_line ∷ [])) call_line
parse_objdump-last_example = parse_objdump-last (label_line ∷ indirect_line ∷ []) call_line
