-- ===== src/MapFile/Matches.antt =====
-- What the expressions match as an object is the path of one.
use herbarium.Base.{
  none_ne, some_injective, after, ◌==◌, ◌≡◌, refl, subst, arith, Bool, true, false, not, ◌&&◌,
  Option, none, some, Bytes, codes, if◌then◌else◌, list_eq, nat_eq, ◌>>=◌, some_of, is_not_space,
  is_space,
}
use herbarium.MapFile.{
  is_empty_line, is_object, object_at_end, contrib, contrib_tail, load_ref, section_name,
  hex_number,
}

-- the steps of a parser that succeeded
bind_some {ℓ κ} :
    {A : Type ℓ} {B : Type κ} (o : Option A) (f : A → Option B) {b : B}
    → (o >>= f) ≡ some b
    → (a : A) × (o ≡ some a) × (f a ≡ some b)
bind_some none f h = absurd (none_ne h)
bind_some (some a) f h = (a, refl, h)

if_some {ℓ} :
    {A : Type ℓ} (b : Bool) (a : A) {c : A}
    → (if b then some a else none) ≡ some c
    → (b ≡ true) × (a ≡ c)
if_some true a h = (refl, some_injective h)
if_some false a h = absurd (none_ne h)

pub object_at_end-is_object :
    (s : Bytes) {o : Bytes} → object_at_end s ≡ some o → is_object o ≡ true
object_at_end-is_object s h =
    let ((object, rest), _, e) = bind_some (some_of is_not_space s) _ h in
    let (good, same) = if_some (is_empty_line rest && is_object object) object e in
    subst (λ x. is_object x ≡ true) same (ground (arith, good))

pub contrib_tail-is_object : (s : Bytes) {o : Bytes} → contrib_tail s ≡ some o → is_object o ≡ true
unfolding contrib_tail
contrib_tail-is_object s h =
    let (a, _, e) = bind_some (hex_number s) _ h in
    let (b, _, f) = bind_some (hex_number a) _ e in
    let ((_, c), _, g) = bind_some (some_of is_space b) _ f in object_at_end-is_object c g

pub contrib-is_object : (s : Bytes) {o : Bytes} → contrib s ≡ some o → is_object o ≡ true
unfolding contrib
contrib-is_object s h = let (a, _, e) = bind_some (section_name s) _ h in contrib_tail-is_object a e

pub load_ref-is_object :
    (line : Bytes) {referrer symbol : Bytes}
    → load_ref line ≡ some (referrer, symbol)
    → is_object referrer ≡ true
unfolding load_ref
load_ref-is_object line h =
    let ((_, a), _, e) = bind_some (some_of is_space line) _ h in
    let ((object, b), _, f) = bind_some (some_of is_not_space a) _ e in
    let ((_, c), _, g) = bind_some (some_of is_space b) _ f in
    let (d, _, i) = bind_some (after (codes "(") c) _ g in
    let ((symbol, k), _, j) = bind_some (some_of (λ x. not (x == b')')) d) _ i in
    let (l, _, m) = bind_some (after (codes ")") k) _ j in
    let (good, same) = if_some (is_object object && is_empty_line l) (object, symbol) m in
    subst (λ x. is_object x.0 ≡ true) same (ground (arith, good))
