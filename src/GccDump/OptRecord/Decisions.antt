-- ===== src/GccDump/OptRecord/Decisions.antt =====
-- The messages in which gcc states a decision, read back.
use herbarium.Base.{
  ℕ, suc, ◌+◌, ◌-◌, ◌<◌, ◌≡◌, refl, ap, ◌∙◌, arith, Bool, true, false, not, ◌||◌, List, [], ◌∷◌,
  ◌++◌, Option, none, some, Bytes, codes, ltb, ◌==◌, if◌then◌else◌, length, length-append, take,
  drop, index, take-length-append, drop-length-append, append_assoc, list_eq, nat_eq, subst,
}
use herbarium.GccDump.CgraphDump.{contains_text}
use herbarium.GccDump.OptRecord.{
  MessageItem, text, node, OptRecordEntry, OptLocation, last_index, NodeRef, split_node, decision,
  ordered, from_parts, read_items, no_items, record_from_message, is_no_node, clean_reason,
}

abbrev has_slash : Bytes → Bool
has_slash [] = false
has_slash (c ∷ s) = c == b'/' || has_slash s

-- a node as gcc writes it
abbrev pub written : NodeRef → Bytes
written n = n.name ++ b'/' ∷ n.id

pub record IsNode (n : NodeRef) : Type 0 where
  pub name : 0 < length n.name
  pub id : 0 < length n.id
  pub no_slash : has_slash n.id ≡ false

last_index-none :
    (found : Option ℕ) (at : ℕ) (s : Bytes) → has_slash s ≡ false → last_index found at s ≡ found
last_index-none found at [] h = refl
last_index-none found at (c ∷ s) h =
    let away : (c == b'/') ≡ false = ground arith in
    rw away (last_index-none found (suc at) s (ground arith))

-- The last slash of a node is the one before its id.
last_index-written :
    (found : Option ℕ) (at : ℕ) (name id : Bytes)
    → has_slash id ≡ false
    → last_index found at (name ++ b'/' ∷ id) ≡ some (at + length name)
last_index-written found at [] id h =
    last_index-none (some at) (suc at) id h ∙ ap some (omega arith)
last_index-written found at (c ∷ name) id h =
    last_index-written (if c == b'/' then some at else found) (suc at) name id h
    ∙ ap some (omega arith)

split_node-written : (n : NodeRef) → IsNode n → split_node (written n) ≡ some n
unfolding split_node
split_node-written n ok =
    let s = written n in
    let k = length n.name in
    let at : last_index none 0 s ≡ some k =
      last_index-written none 0 n.name n.id ok.no_slash ∙ ap some (omega arith) in
    let inside : (not (ltb 0 k) || k == length s - 1) ≡ false =
      ground (arith, length-append n.name (b'/' ∷ n.id), ok.name, ok.id) in
    let front : take k s ≡ n.name = take-length-append n.name (b'/' ∷ n.id) in
    let regroup : (n.name ++ b'/' ∷ []) ++ n.id ≡ s = append_assoc n.name (b'/' ∷ []) n.id in
    let width : length (n.name ++ b'/' ∷ []) ≡ k + 1 =
      omega (arith, length-append n.name (b'/' ∷ [])) in
    let back : drop (k + 1) s ≡ n.id =
      subst (λ x. drop x s ≡ n.id) width
        (subst (λ y. drop (length (n.name ++ b'/' ∷ [])) y ≡ n.id) regroup
          (drop-length-append (n.name ++ b'/' ∷ []) n.id)) in
    rw (at, inside, front, back) refl

-- The wordings between the two nodes: the first two have the caller first, the others the callee.
pub data Wording : Type 0 where
  arrow spaced_arrow into to : Wording

abbrev pub words_of : Wording → Bytes
words_of arrow = codes "->"
words_of spaced_arrow = codes " -> "
words_of into = codes " into "
words_of to = codes " to "

abbrev both : Wording → Bytes → NodeRef → NodeRef → Bytes → List MessageItem
both w lead first second tail =
    text lead ∷ node (written first) ∷ text (words_of w) ∷ node (written second) ∷ text tail ∷ []

-- The message of a decision about the call of the callee by the caller.
abbrev pub stated : Wording → Bytes → NodeRef → NodeRef → Bytes → List MessageItem
stated arrow lead caller callee tail = both arrow lead caller callee tail
stated spaced_arrow lead caller callee tail = both spaced_arrow lead caller callee tail
stated into lead caller callee tail = both into lead callee caller tail
stated to lead caller callee tail = both to lead callee caller tail

abbrev pub kind_of : Bool → Bytes
kind_of true = codes "success"
kind_of false = codes "failure"

is_no_node-written : (name id : Bytes) → is_no_node (name ++ b'/' ∷ id) ≡ false
is_no_node-written [] id = refl
is_no_node-written (c ∷ name) id = refl

from_parts-written :
    (rec : OptRecordEntry) (pass trailing lead sep : Bytes) (first second : NodeRef)
    → IsNode first
    → IsNode second
    → from_parts rec pass trailing (written first ∷ written second ∷ []) (lead ∷ sep ∷ [])
      ≡ ordered rec pass trailing sep first second
from_parts-written rec pass trailing lead sep first second p q =
    rw (split_node-written first p, split_node-written second q) refl

read_items-two :
    (lead sep trailing : Bytes) (first second : NodeRef)
    → read_items no_items
        (text lead ∷ node (written first) ∷ text sep ∷ node (written second) ∷ text trailing ∷ [])
      ≡ record {
        nodes = written first ∷ written second ∷ [];
        seps = lead ∷ sep ∷ [];
        cur = trailing;
      }
unfolding read_items
read_items-two lead sep trailing first second =
    rw (is_no_node-written first.name first.id, is_no_node-written second.name second.id) refl

callee_first :
    (rec : OptRecordEntry) (pass trailing sep : Bytes) (first second : NodeRef)
    → contains_text sep (codes "->") ≡ false
    → (contains_text sep (codes " into ") || contains_text sep (codes " to ")) ≡ true
    → ordered rec pass trailing sep first second ≡ some (decision rec pass trailing second first)
callee_first rec pass trailing sep first second no_arrow h = rw (no_arrow, h) refl

caller_first :
    (rec : OptRecordEntry) (pass trailing sep : Bytes) (first second : NodeRef)
    → contains_text sep (codes "->") ≡ true
    → ordered rec pass trailing sep first second ≡ some (decision rec pass trailing first second)
caller_first rec pass trailing sep first second h = rw h refl

module _ (rec : OptRecordEntry) (pass lead tail : Bytes) (first second : NodeRef) where
  both-ordered :
      (w : Wording)
      → IsNode first
      → IsNode second
      → rec.message ≡ both w lead first second tail
      → record_from_message rec pass ≡ ordered rec pass tail (words_of w) first second
  unfolding record_from_message
  both-ordered w p q e = rw e (
      ap (λ m. from_parts rec pass m.cur m.nodes m.seps)
        (read_items-two lead (words_of w) tail first second)
      ∙ from_parts-written rec pass tail lead (words_of w) first second p q)

stated-decision :
    (w : Wording) (rec : OptRecordEntry) (pass lead tail : Bytes) (caller callee : NodeRef)
    → IsNode caller
    → IsNode callee
    → rec.message ≡ stated w lead caller callee tail
    → record_from_message rec pass ≡ some (decision rec pass tail caller callee)
unfolding index
stated-decision arrow rec pass lead tail caller callee p q e =
    both-ordered rec pass lead tail caller callee arrow p q e
    ∙ caller_first rec pass tail (words_of arrow) caller callee refl
stated-decision spaced_arrow rec pass lead tail caller callee p q e =
    both-ordered rec pass lead tail caller callee spaced_arrow p q e
    ∙ caller_first rec pass tail (words_of spaced_arrow) caller callee refl
stated-decision into rec pass lead tail caller callee p q e =
    both-ordered rec pass lead tail callee caller into q p e
    ∙ callee_first rec pass tail (words_of into) callee caller refl refl
stated-decision to rec pass lead tail caller callee p q e =
    both-ordered rec pass lead tail callee caller to q p e
    ∙ callee_first rec pass tail (words_of to) callee caller refl refl

-- The message of a decision, taken or declined, in any of the four wordings, with nodes as gcc writes
-- them, whose ids hold no slash, is read with the caller and the callee that the wording means and
-- with its position; the reason of one that was declined is the cleaned tail.
pub record_from_message-stated :
    (w : Wording) (success : Bool) (lead pass_id pass tail : Bytes) (caller callee : NodeRef)
    (at : OptLocation)
    → IsNode caller
    → IsNode callee
    → record_from_message
        (record {
          kind = kind_of success;
          pass = pass_id;
          message = stated w lead caller callee tail;
          location = some at;
        })
        pass
      ≡ some (record {
        pass = pass;
        caller_local_id = caller.id;
        callee_local_id = callee.id;
        caller_name = caller.name;
        callee_name = callee.name;
        inlined = success;
        reason = if success then [] else clean_reason tail;
        file = at.file;
        line = at.line;
        column = at.column;
      })
record_from_message-stated w true lead pass_id pass tail caller callee at p q =
    stated-decision w
      (record {
        kind = codes "success";
        pass = pass_id;
        message = stated w lead caller callee tail;
        location = some at;
      })
      pass lead tail caller callee p q refl
record_from_message-stated w false lead pass_id pass tail caller callee at p q =
    stated-decision w
      (record {
        kind = codes "failure";
        pass = pass_id;
        message = stated w lead caller callee tail;
        location = some at;
      })
      pass lead tail caller callee p q refl
