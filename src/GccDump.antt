-- ===== src/GccDump.antt =====
-- internal/gccdump/types.go, and `mergeSymbol` of internal/gccdump/cgraph.go. Strings are lists of
-- bytes, and a map is an association list.
pub mod CallgraphInfo
pub mod CgraphDump
pub mod IcfFolds
pub mod InlineSummaries
pub mod OptRecord
use herbarium.Base.{
  ℕ, Bool, true, false, ◌||◌, ◌&&◌, List, [], ◌∷◌, none, some, Bytes, leb, ltb, if◌then◌else◌,
  length, lookup, insert, list_eq, nat_eq,
}

pub record Ref : Type 0 where
  pub target_local_id : Bytes
  pub kind : Bytes

pub record Call : Type 0 where
  pub target_local_id : Bytes
  pub inlined : Bool

pub record IndirectSite : Type 0 where
  pub speculative_count : ℕ
  pub speculative_targets : List Bytes

pub record Function : Type 0 where
  pub local_id : Bytes
  pub name : Bytes
  pub linkage_name : Bytes
  pub kind : Bytes
  pub analyzed : Bool
  pub body_removed : Bool
  pub visibility_flags : List Bytes
  pub address_taken : Bool
  pub function_flags : List Bytes
  pub clone_of_id : Bytes
  pub refs : List Ref
  pub called : List Call
  pub indirect_sites : List IndirectSite

pub record Cgraph : Type 0 where
  pub trivial_needed : List Bytes
  pub symbols : List (Bytes × Function)

pub record CiNode : Type 0 where
  pub name : Bytes
  pub decl_file : Bytes
  pub decl_line : ℕ
  pub decl_column : ℕ
  pub stack_bytes : ℕ
  pub stack_kind : Bytes
  pub dynamic_objs : ℕ
  pub is_external : Bool
  pub is_indirect_placeholder : Bool

pub record CiEdge : Type 0 where
  pub source : Bytes
  pub target : Bytes
  pub site_file : Bytes
  pub site_line : ℕ
  pub site_column : ℕ
  pub indirect : Bool

pub record Ci : Type 0 where
  pub title : Bytes
  pub nodes : List (Bytes × CiNode)
  pub edges : List CiEdge

pub record IcfGroup : Type 0 where
  pub winner_name : Bytes
  pub loser_names : List Bytes

pub record IcfDump : Type 0 where
  pub groups : List IcfGroup

pub record InlineSummary : Type 0 where
  pub function_local_id : Bytes
  pub name : Bytes
  pub linkage_name : Bytes
  pub inlinable : Bool
  pub inlined_into : List Bytes

pub record InlineDump : Type 0 where
  pub summaries : List InlineSummary

pub record InlineRecord : Type 0 where
  pub pass : Bytes
  pub caller_local_id : Bytes
  pub callee_local_id : Bytes
  pub caller_name : Bytes
  pub callee_name : Bytes
  pub inlined : Bool
  pub reason : Bytes
  pub file : Bytes
  pub line : ℕ
  pub column : ℕ

pub record OptRecordDump : Type 0 where
  pub inline_records : List InlineRecord

abbrev pub is_empty {ℓ} : {A : Type ℓ} → List A → Bool
is_empty [] = true
is_empty (x ∷ xs) = false

-- a string of the new observation, unless it is empty
abbrev pub newer_string : Bytes → Bytes → Bytes
newer_string prev obs = if is_empty obs then prev else obs

-- a list of the new observation, if it is not empty and at least as long
abbrev pub newer_list {ℓ} : {A : Type ℓ} → List A → List A → List A
newer_list prev obs = if leb (length prev) (length obs) && ltb 0 (length obs) then obs else prev

-- what `mergeSymbol` writes through `prev`
pub merged : Function → Function → Function
merged prev obs = record prev {
  name = newer_string prev.name obs.name;
  linkage_name = newer_string prev.linkage_name obs.linkage_name;
  kind = newer_string prev.kind obs.kind;
  analyzed = prev.analyzed || obs.analyzed;
  body_removed = prev.body_removed || obs.body_removed;
  address_taken = prev.address_taken || obs.address_taken;
  clone_of_id = newer_string prev.clone_of_id obs.clone_of_id;
  visibility_flags = newer_list prev.visibility_flags obs.visibility_flags;
  function_flags = newer_list prev.function_flags obs.function_flags;
  refs = newer_list prev.refs obs.refs;
  called = newer_list prev.called obs.called;
  indirect_sites = newer_list prev.indirect_sites obs.indirect_sites;
}

pub merge_symbol : List (Bytes × Function) → Function → List (Bytes × Function)
merge_symbol dst obs = elim (lookup obs.local_id dst) [
  | none ↦ insert obs.local_id obs dst
  | some prev ↦ insert obs.local_id (merged prev obs) dst
]
