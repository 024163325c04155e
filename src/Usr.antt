-- ===== src/Usr.antt =====
-- internal/usr/usr.go. Strings are lists of bytes. A call that would panic gives `none`.
pub mod Identity
pub mod Itoa
pub mod Clones
mod Tests
use Prim.Native.String.{String}
use herbarium.Base.{
  ℕ, ℤ, pos, negsuc, zero, suc, ◌+◌, ◌-◌, ◌/◌, ◌%◌, ◌^◌, ◌≡◌, refl, Bool, true, false, ◌&&◌, ◌||◌,
  List, [], ◌∷◌, ◌++◌, Option, none, some, Bytes, codes, has_prefix, leb, ◌==◌, if◌then◌else◌, drop,
  length, map,
}

abbrev at : String → Bytes → Bytes → Bytes
at kind path name = codes "c:" ++ (path ++ (codes kind ++ name))

unfoldable pub function : Bytes → Bytes → Bytes
function [] name = codes "c:@F@" ++ name
function (c ∷ path) name = at "@F@" (c ∷ path) name

unfoldable pub variable : Bytes → Bytes → Bytes
variable [] name = codes "c:@V@" ++ name
variable (c ∷ path) name = at "@V@" (c ∷ path) name

pub typedef : Bytes → Bytes → Bytes
typedef path name = at "@T@" path name

-- The loop of `itoa`, with `room` bytes of the buffer free: the digits of `n` in front of `out`.
pub write_digits : ℕ → ℕ → Bytes → Option (ℕ × Bytes)
write_digits zero n out = if n == 0 then some (0, out) else none
write_digits (suc room) n out =
    let rest = write_digits room (n / 10) ((b'0' + n % 10) ∷ out) in
    if n == 0 then some (suc room, out) else rest

abbrev pub buffer_size : ℕ
buffer_size = 12

pub sign : Option (ℕ × Bytes) → Option Bytes
sign none = none
sign (some (zero, out)) = none
sign (some (suc room, out)) = some (b'-' ∷ out)

pub digits_of : Option (ℕ × Bytes) → Option Bytes
digits_of none = none
digits_of (some (room, out)) = some out

-- -n is n again for the least int, and the loop then writes no digit
pub itoa : ℤ → Option Bytes
itoa (pos zero) = some (codes "0")
itoa (pos (suc n)) = digits_of (write_digits buffer_size (suc n) [])
itoa (negsuc n) = sign (write_digits buffer_size (if n == 2 ^ 63 - 1 then 0 else suc n) [])

pub resolve_tag_name : Bytes → ℤ → ℤ → Option Bytes
resolve_tag_name (c ∷ name) line col = some (c ∷ name)
resolve_tag_name [] line col = elim (itoa line) [
  | none ↦ none
  | some l ↦ elim (itoa col) [
    | none ↦ none
    | some k ↦ some (codes "__anon_" ++ l ++ codes "_" ++ k)
  ]
]

abbrev tagged : String → Bytes → Option Bytes → Option Bytes
tagged kind path none = none
tagged kind path (some tag) = some (at kind path tag)

pub struct : Bytes → Bytes → ℤ → ℤ → Option Bytes
struct path name line col = tagged "@S@" path (resolve_tag_name name line col)

pub union : Bytes → Bytes → ℤ → ℤ → Option Bytes
union path name line col = tagged "@U@" path (resolve_tag_name name line col)

pub enum : Bytes → Bytes → ℤ → ℤ → Option Bytes
enum path name line col = tagged "@E@" path (resolve_tag_name name line col)

pub enum_member : Bytes → Bytes → ℤ → ℤ → Bytes → Option Bytes
enum_member path enum_name line col member = elim (enum path enum_name line col) [
  | none ↦ none
  | some u ↦ some (u ++ b'@' ∷ member)
]

pub field : Bytes → Bytes → Bytes
field container_usr field_name = container_usr ++ codes "@F@" ++ field_name

abbrev is_digit : ℕ → Bool
is_digit c = leb b'0' c && leb c b'9'

abbrev all_digits : Bytes → Bool
all_digits [] = true
all_digits (c ∷ s) = is_digit c && all_digits s

-- `(\.\d+)?$`
abbrev is_counter : Bytes → Bool
is_counter [] = true
is_counter (c ∷ []) = false
is_counter (c ∷ d ∷ s) = c == b'.' && all_digits (d ∷ s)

abbrev clone_words : List Bytes
clone_words =
    codes "constprop"
    ∷ codes "isra"
    ∷ codes "part"
    ∷ codes "localalias"
    ∷ codes "cold"
    ∷ codes "hot"
    ∷ codes "resolver"
    ∷ []

abbrev word_and_counter : List Bytes → Bytes → Bool
word_and_counter [] s = false
word_and_counter (w ∷ ws) s =
    has_prefix s w && is_counter (drop (length w) s) || word_and_counter ws s

-- the second group of `cloneSuffix`, up to the end of the text
pub is_clone_suffix : Bytes → Bool
is_clone_suffix [] = false
is_clone_suffix (c ∷ s) = c == b'.' && word_and_counter clone_words s

-- The first group, `(.*?)`: the shortest that the suffix can follow. It holds no newline.
pub split_clone : Bytes → Option (Bytes × Bytes)
split_clone [] = none
split_clone (c ∷ s) = elim (is_clone_suffix (c ∷ s)) [
  | true ↦ some ([], c ∷ s)
  | false ↦
      if c == b'\n'
      then none
      else elim (split_clone s) [ none ↦ none | some (base, suffix) ↦ some (c ∷ base, suffix) ]
]

-- `Clone`: the base name, the suffix, and whether there is one
pub clone : Bytes → Bytes × Bytes × Bool
clone name = elim (split_clone name) [
  | none ↦ (name, [], false)
  | some (base, suffix) ↦ (base, suffix, true)
]

-- `strings.ReplaceAll(p, "\\", "/")`
abbrev forward_slashes : Bytes → Bytes
forward_slashes = map (λ c. if c == b'\\' then b'/' else c)

abbrev trim_dot_slash : Bytes → Bytes
trim_dot_slash [] = []
trim_dot_slash (c ∷ []) = c ∷ []
trim_dot_slash (c ∷ d ∷ p) = if c == b'.' && d == b'/' then p else c ∷ d ∷ p

abbrev trim_last_slash : Bytes → Bytes
trim_last_slash [] = []
trim_last_slash (c ∷ []) = if c == b'/' then [] else c ∷ []
trim_last_slash (c ∷ d ∷ p) = c ∷ trim_last_slash (d ∷ p)

pub normalize_project_path : Bytes → Bytes
normalize_project_path p = trim_last_slash (trim_dot_slash (forward_slashes p))
