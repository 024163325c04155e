-- ===== src/Objdump/Labels.antt =====
-- The caller of an edge is the function whose label stands last before the call.
use herbarium.Base.{
  taken, ℕ, ◌≡◌, refl, sym, ap, subst, ◌∙◌, Bool, true, false, List, [], ◌∷◌, ◌++◌, Option, none,
  some, Bytes, if◌then◌else◌, append-nil,
}
use herbarium.Objdump.{
  ObjdumpEdge, Stream, func_label, direct_call, parse_uint, add_call, is_empty_name, read_as,
  read_line, line_loop, parse_objdump,
}

abbrev or_else {ℓ} : {A : Type ℓ} → Option A → Option A → Option A
or_else (some a) b = some a
or_else none b = b

-- the last label in the lines: its digits and its name
abbrev pub last_label : List Bytes → Option (Bytes × Bytes)
last_label [] = none
last_label (line ∷ lines) = or_else (last_label lines) (func_label line)

-- the edge of a call under a label, which has a name
abbrev pub edge_of : Option (Bytes × Bytes) → Option (Bytes × Bytes) → List ObjdumpEdge
edge_of (some (addr, c ∷ name)) (some (callee_addr, callee)) =
    record {
      caller = c ∷ name;
      caller_addr = parse_uint addr;
      callee = callee;
      callee_addr = parse_uint callee_addr;
    }
    ∷ []
edge_of _ _ = []

-- the edges of a line, which are none if it is a label
abbrev edges_unless :
    Option (Bytes × Bytes) → Option (Bytes × Bytes) → Option (Bytes × Bytes) → List ObjdumpEdge
edges_unless (some l) label call = []
edges_unless none label call = edge_of label call

abbrev pub edges_at : Option (Bytes × Bytes) → Bytes → List ObjdumpEdge
edges_at label line = edges_unless (func_label line) label (direct_call line)

abbrev label_name : Option (Bytes × Bytes) → Bytes
label_name none = []
label_name (some (addr, name)) = name

abbrev label_addr : Option (Bytes × Bytes) → ℕ
label_addr none = 0
label_addr (some (addr, name)) = parse_uint addr

-- what the variables are after lines whose last label is the given one
abbrev IsUnder : Option (Bytes × Bytes) → Stream → Type 0
IsUnder l s = (s.cur_func ≡ label_name l) × (s.cur_func_addr ≡ label_addr l)

add_call-IsUnder :
    (l call : Option (Bytes × Bytes)) (s : Stream) → IsUnder l s → IsUnder l (add_call s call)
add_call-IsUnder l none s h = h
add_call-IsUnder l (some (addr, name)) s h = h

read_as-IsUnder :
    (l label call : Option (Bytes × Bytes)) (s : Stream)
    → IsUnder l s
    → IsUnder (or_else label l) (read_as s label call)
read_as-IsUnder l (some (addr, name)) call s h = (refl, refl)
read_as-IsUnder l none call s h =
    taken (IsUnder l) (is_empty_name s.cur_func) s (add_call s call) h (add_call-IsUnder l call s h)

or_else_assoc {ℓ} :
    {A : Type ℓ} (a b c : Option A) → or_else a (or_else b c) ≡ or_else (or_else a b) c
or_else_assoc (some x) b c = refl
or_else_assoc none b c = refl

line_loop-IsUnder :
    (lines : List Bytes) (l : Option (Bytes × Bytes)) (s : Stream)
    → IsUnder l s
    → IsUnder (or_else (last_label lines) l) (line_loop s lines)
unfolding line_loop
line_loop-IsUnder [] l s h = h
line_loop-IsUnder (line ∷ lines) l s h =
    subst (λ x. IsUnder x (line_loop (read_line s line) lines))
      (or_else_assoc (last_label lines) (func_label line) l)
      (line_loop-IsUnder lines (or_else (func_label line) l) (read_line s line)
        (read_as-IsUnder l (func_label line) (direct_call line) s h))

or_else-none {ℓ} : {A : Type ℓ} (a : Option A) → or_else a none ≡ a
or_else-none none = refl
or_else-none (some a) = refl

line_loop-last :
    (lines : List Bytes) (line : Bytes) (s : Stream)
    → line_loop s (lines ++ line ∷ []) ≡ read_line (line_loop s lines) line
unfolding line_loop
line_loop-last [] line s = refl
line_loop-last (l ∷ lines) line s = line_loop-last lines line (read_line s l)

first_if : (b : Bool) (s t : Stream) → b ≡ true → (if b then s else t).edges ≡ s.edges
first_if b s t h = rw h refl

other_if : (b : Bool) (s t : Stream) → b ≡ false → (if b then s else t).edges ≡ t.edges
other_if b s t h = rw h refl

-- the edges that a line adds
edges-read_as :
    (l label call : Option (Bytes × Bytes)) (s : Stream)
    → IsUnder l s
    → (read_as s label call).edges ≡ s.edges ++ edges_unless label l call
edges-read_as l (some m) call s h = sym (append-nil s.edges)
edges-read_as none none call s (name, addr) =
    first_if (is_empty_name s.cur_func) s (add_call s call) (ap is_empty_name name)
    ∙ sym (append-nil s.edges)
edges-read_as (some (a, [])) none call s (name, addr) =
    first_if (is_empty_name s.cur_func) s (add_call s call) (ap is_empty_name name)
    ∙ sym (append-nil s.edges)
edges-read_as (some (a, c ∷ n)) none none s (name, addr) =
    other_if (is_empty_name s.cur_func) s s (ap is_empty_name name) ∙ sym (append-nil s.edges)
edges-read_as (some (a, c ∷ n)) none (some (b, m)) s (name, addr) =
    let edge : Bytes → ℕ → ObjdumpEdge =
      λ x y. record { caller = x; caller_addr = y; callee = m; callee_addr = parse_uint b } in
    other_if (is_empty_name s.cur_func) s (add_call s (some (b, m))) (ap is_empty_name name)
    ∙ ap (λ x. s.edges ++ edge x s.cur_func_addr ∷ []) name
    ∙ ap (λ y. s.edges ++ edge (c ∷ n) y ∷ []) addr

-- A line adds the edge of its call, if it is one, from the function whose label stands last before
-- it, and nothing if it is a label, or if no label stands before it.
pub parse_objdump-last :
    (lines : List Bytes) (line : Bytes)
    → parse_objdump (lines ++ line ∷ []) ≡ parse_objdump lines ++ edges_at (last_label lines) line
unfolding parse_objdump
parse_objdump-last lines line =
    let s : Stream = record { edges = []; cur_func = []; cur_func_addr = 0 } in
    let under : IsUnder (or_else (last_label lines) none) (line_loop s lines) =
      line_loop-IsUnder lines none s (refl, refl) in
    ap (λ x. x.edges) (line_loop-last lines line s)
    ∙ edges-read_as (last_label lines) (func_label line) (direct_call line) (line_loop s lines)
        (subst (λ x. IsUnder x (line_loop s lines)) (or_else-none (last_label lines)) under)
