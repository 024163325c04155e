-- ===== src/Usr/Itoa.antt =====
-- `itoa` prints in decimal whatever fits its buffer, and panics on all else.
use herbarium.Base.{
  ℤ, pos, negsuc, ℕ, zero, suc, ◌+◌, ◌-◌, ◌*◌, ◌/◌, ◌%◌, ◌^◌, ◌≤◌, ◌<◌, ◌≡◌, refl, [], ◌∷◌, Option,
  none, some, arith, Bytes, codes, ◌==◌, Bool-cases, inl, inr, ap, sym, ◌∙◌, false, ◌≢◌,
}
use native.Mathlib.Nat.{pow-suc}
use herbarium.Usr.{write_digits, sign, digits_of, itoa}

-- the number that decimal digits spell behind `n`
abbrev pub value : ℕ → Bytes → ℕ
value n [] = n
value n (c ∷ s) = value (n * 10 + (c - b'0')) s

-- what the text of an int stands for
abbrev pub ReadsAs : Bytes → ℤ → Type 0
ReadsAs [] z = ⊥
ReadsAs (c ∷ s) (pos n) = value 0 (c ∷ s) ≡ n
ReadsAs (c ∷ s) (negsuc n) = (c ≡ b'-') × (value 0 s ≡ suc n)

value-digit : (n : ℕ) (out : Bytes) → value (n / 10) ((b'0' + n % 10) ∷ out) ≡ value n out
value-digit n out =
    let e : n / 10 * 10 + (b'0' + n % 10 - b'0') ≡ n = omega arith in ap (λ k. value k out) e

write_digits-fits :
    (room n : ℕ) (out : Bytes)
    → n < 10 ^ room
    → (left : ℕ) × (s : Bytes) × (write_digits room n out ≡ some (left, s))
      × (value 0 s ≡ value n out)
unfolding write_digits
write_digits-fits zero n out h =
    let e : n ≡ 0 = omega arith in (0, out, ground arith, ap (λ k. value k out) (sym e))
write_digits-fits (suc room) n out h = elim (Bool-cases (n == 0)) [
  | inl done ↦ let e : 0 ≡ n = ground arith in (suc room, out, rw done, ap (λ k. value k out) e)
  | inr more ↦
      let (left, s, e, v) =
        write_digits-fits room (n / 10) ((b'0' + n % 10) ∷ out) (omega (arith, pow-suc 10 room)) in
      (left, s, rw more e, v ∙ value-digit n out)
]

write_digits-more :
    (room n : ℕ) (out : Bytes) (left : ℕ) (s : Bytes)
    → write_digits room n out ≡ some (left, s)
    → write_digits (suc room) n out ≡ some (suc left, s)
unfolding write_digits
write_digits-more zero n out left s e = ground arith
write_digits-more (suc room) n out left s e =
    ground (arith, write_digits-more room (n / 10) ((b'0' + n % 10) ∷ out) left s)

ten_pos : (k : ℕ) → 0 < 10 ^ k
ten_pos zero = omega arith
ten_pos (suc k) = omega (arith, pow-suc 10 k, ten_pos k)

write_digits-overflow : (room n : ℕ) (out : Bytes) → 10 ^ room ≤ n → write_digits room n out ≡ none
unfolding write_digits
write_digits-overflow zero n out h = ground arith
write_digits-overflow (suc room) n out h =
    let more : (n == 0) ≡ false = ground (arith, ten_pos (suc room)) in
    rw more
      (write_digits-overflow room (n / 10) ((b'0' + n % 10) ∷ out) (omega (arith, pow-suc 10 room)))

abbrev pub Fits : ℤ → Type 0
Fits (pos n) = n < 10 ^ 12
Fits (negsuc n) = n + 1 < 10 ^ 11

-- too long for the buffer; the least int has no digits written, and is neither
abbrev pub IsTooLong : ℤ → Type 0
IsTooLong (pos n) = 10 ^ 12 ≤ n
IsTooLong (negsuc n) = (10 ^ 11 ≤ n + 1) × (n ≢ 2 ^ 63 - 1)

ReadsAs-digits : (s : Bytes) (n : ℕ) → value 0 s ≡ suc n → ReadsAs s (pos (suc n))
ReadsAs-digits [] n h = absurd (omega arith)
ReadsAs-digits (c ∷ s) n h = h

itoa-Fits : (z : ℤ) → Fits z → (s : Bytes) × (itoa z ≡ some s) × ReadsAs s z
unfolding itoa digits_of sign
itoa-Fits (pos zero) h = (codes "0", refl, refl)
itoa-Fits (pos (suc n)) h =
    let (left, s, e, v) = write_digits-fits 12 (suc n) [] h in (s, rw e, ReadsAs-digits s n v)
itoa-Fits (negsuc n) h =
    let (left, s, e, v) = write_digits-fits 11 (suc n) [] (omega arith) in
    let small : (n == 2 ^ 63 - 1) ≡ false = ground arith in
    (b'-' ∷ s, rw (small, write_digits-more 11 (suc n) [] left s e), (refl, v))

write_digits_full :
    (room n : ℕ) (out : Bytes) (left : ℕ) (s : Bytes)
    → 10 ^ room ≤ n
    → write_digits (suc room) n out ≡ some (left, s)
    → left ≡ 0
unfolding write_digits
write_digits_full zero n out left s h e = ground arith
write_digits_full (suc room) n out left s h e =
    let more : (n == 0) ≡ false = ground (arith, ten_pos (suc room)) in
    write_digits_full room (n / 10) ((b'0' + n % 10) ∷ out) left s (omega (arith, pow-suc 10 room))
      (rw more at e)

sign-none :
    (o : Option (ℕ × Bytes))
    → ((left : ℕ) (s : Bytes) → o ≡ some (left, s) → left ≡ 0)
    → sign o ≡ none
unfolding sign
sign-none none h = refl
sign-none (some (zero, s)) h = refl
sign-none (some (suc left, s)) h = absurd (omega (arith, h (suc left) s refl))

itoa_panics : (z : ℤ) → IsTooLong z → itoa z ≡ none
unfolding itoa digits_of
itoa_panics (pos zero) h = absurd (omega arith)
itoa_panics (pos (suc n)) h = rw (write_digits-overflow 12 (suc n) [] h)
itoa_panics (negsuc n) (h, ne) =
    let other : (n == 2 ^ 63 - 1) ≡ false = ground arith in
    rw other (sign-none _ (λ left s. write_digits_full 11 (suc n) [] left s (omega arith)))

-- An int of at most twelve characters is printed so that it reads back, and a longer one is a
-- panic, but for the least int.
pub itoa_lem :
    (z : ℤ)
    → (Fits z → (s : Bytes) × (itoa z ≡ some s) × ReadsAs s z) × (IsTooLong z → itoa z ≡ none)
itoa_lem z = (itoa-Fits z, itoa_panics z)
