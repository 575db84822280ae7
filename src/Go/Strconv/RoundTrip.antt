-- ===== src/Go/Strconv/RoundTrip.antt =====
-- A printed integer parses back.
use Prim.Native.Char.{Char, code}
use syncflux.Prelude.{
  neg_ℕ, false, some, ◌==◌, pos_part, neg_part, ◌^◌, ℕ, zero, suc, ◌+◌, ◌-◌, ◌*◌, ◌/◌, ◌%◌, ◌≤◌,
  ◌<◌, ◌≡◌, refl, ℤ, pos, negsuc, FitsInt64, none, String, Bool, arith, ltb, inl, inr, Bool-cases,
  ap, ◌∙◌,
}
use syncflux.Go.Strconv.{
  range, parse_digits, parse_uint, apply_sign, parse_int, digit, digits_before, format_nat,
  format_int,
}

code-digit : (n : ℕ) → n < 10 → code (digit n) ≡ n + 48
code-digit zero h = refl
code-digit (suc zero) h = refl
code-digit (suc (suc zero)) h = refl
code-digit (suc (suc (suc zero))) h = refl
code-digit (suc (suc (suc (suc zero)))) h = refl
code-digit (suc (suc (suc (suc (suc zero))))) h = refl
code-digit (suc (suc (suc (suc (suc (suc zero)))))) h = refl
code-digit (suc (suc (suc (suc (suc (suc (suc zero))))))) h = refl
code-digit (suc (suc (suc (suc (suc (suc (suc (suc zero)))))))) h = refl
code-digit (suc (suc (suc (suc (suc (suc (suc (suc (suc n))))))))) h = omega arith

-- Reading one more digit.
parse_digits-digit :
    (max n d : ℕ) (s : String)
    → d < 10
    → n * 10 + d ≤ max
    → parse_digits max n (String.◌∷◌ (digit d) s) ≡ parse_digits max (n * 10 + d) s
unfolding parse_digits
parse_digits-digit max n d s h k =
    let e : d + 48 - 48 ≡ d = omega arith in rw (code-digit d h, parse_digits, e) (ground arith)

parse_digits-digits_before :
    (max fuel n : ℕ) (out : String)
    → n < fuel
    → n ≤ max
    → parse_digits max 0 (digits_before fuel n out) ≡ parse_digits max n out
unfolding digits_before
parse_digits-digits_before max zero n out h k = absurd (omega arith)
parse_digits-digits_before max (suc f) n out h k = elim (Bool-cases (ltb n 10)) [
  | inl small ↦ rw small (
      parse_digits-digit max 0 n out (ground arith) (omega arith)
      ∙ ap (λ m. parse_digits max m out) (omega arith))
  | inr big ↦ rw big (
      parse_digits-digits_before max f (n / 10) (String.◌∷◌ (digit (n % 10)) out) (ground arith)
        (omega arith)
      ∙ parse_digits-digit max (n / 10) (n % 10) out (omega arith) (omega arith)
      ∙ ap (λ m. parse_digits max m out) (omega arith))
]

-- A text that starts with a digit.
abbrev StartsWithDigit : String → Type 0
StartsWithDigit s = (d : ℕ) × (t : String) × (d < 10) × (s ≡ String.◌∷◌ (digit d) t)

digits_before-StartsWithDigit :
    (fuel n : ℕ) (out : String) → StartsWithDigit out → StartsWithDigit (digits_before fuel n out)
unfolding digits_before
digits_before-StartsWithDigit zero n out h = h
digits_before-StartsWithDigit (suc f) n out h = elim (Bool-cases (ltb n 10)) [
  | inl small ↦ rw small (n, out, ground arith, refl)
  | inr big ↦ rw big (digits_before-StartsWithDigit f (n / 10) _ (n % 10, out, omega arith, refl))
]

format_nat-StartsWithDigit : (n : ℕ) → StartsWithDigit (format_nat n)
unfolding format_nat
format_nat-StartsWithDigit n = elim (Bool-cases (ltb n 10)) [
  | inl small ↦ rw small (n, "", ground arith, refl)
  | inr big ↦ rw big (digits_before-StartsWithDigit n (n / 10) _ (n % 10, "", omega arith, refl))
]

parse_uint_digit :
    (s : String) (bits : ℕ)
    → StartsWithDigit s
    → parse_uint s bits ≡ parse_digits (2 ^ bits - 1) 0 s
unfolding parse_uint
parse_uint_digit s bits (d, t, _, e) = rw e

parse_int_digit :
    (s : String) (bits : ℕ)
    → StartsWithDigit s
    → parse_int s bits ≡ apply_sign bits Bool.false (parse_uint s bits)
unfolding parse_int
parse_int_digit s bits (d, t, h, e) = rw (e, parse_int, code-digit d h) (ground arith)

pub parse_uint-format_nat :
    (n bits : ℕ) → n ≤ 2 ^ bits - 1 → parse_uint (format_nat n) bits ≡ (n, none)
parse_uint-format_nat n bits h =
    parse_uint_digit _ bits (format_nat-StartsWithDigit n)
    ∙ unfold format_nat parse_digits in
      parse_digits-digits_before (2 ^ bits - 1) (suc n) n "" (omega arith) h

-- The decimal text of a number, read as a signed one of `bits` bits.
pub parse_int-format_nat :
    (n bits : ℕ)
    → n ≤ 2 ^ bits - 1
    → parse_int (format_nat n) bits ≡ apply_sign bits Bool.false (n, none)
parse_int-format_nat n bits h =
    parse_int_digit _ bits (format_nat-StartsWithDigit n)
    ∙ ap (apply_sign bits Bool.false) (parse_uint-format_nat n bits h)

pub parse_int-format_int_of :
    (bits : ℕ) (z : ℤ)
    → 2 ^ (bits - 1) ≤ 2 ^ bits - 1
    → pos_part z < 2 ^ (bits - 1)
    → neg_part z ≤ 2 ^ (bits - 1)
    → parse_int (format_int z) bits ≡ (z, none)
unfolding format_int
parse_int-format_int_of bits (pos n) room h k =
    parse_int-format_nat n bits (omega (arith, room, h)) ∙ unfold apply_sign in ground arith
parse_int-format_int_of bits (negsuc n) room h k =
    unfold parse_int in
    rw (parse_uint-format_nat (suc n) bits (omega (arith, room, k))) (ground arith)

-- The decimal text of an `int64` parses back to it, without an error.
pub parse_int-format_int : (z : ℤ) → FitsInt64 z → parse_int (format_int z) 64 ≡ (z, none)
parse_int-format_int z h =
    parse_int-format_int_of 64 z (omega arith) (omega (arith, h)) (omega (arith, h))

-- A number that does not fit is a range error; its text starts with a minus sign if it is negative.
pub parse_int-format_nat_over :
    (n bits : ℕ)
    → n ≤ 2 ^ bits - 1
    → 2 ^ (bits - 1) ≤ n
    → parse_int (format_nat n) bits ≡ (pos (2 ^ (bits - 1) - 1), some range)
parse_int-format_nat_over n bits h k =
    parse_int-format_nat n bits h ∙ unfold apply_sign in ground arith

pub parse_int-format_int_under :
    (n bits : ℕ)
    → suc n ≤ 2 ^ bits - 1
    → 2 ^ (bits - 1) < suc n
    → parse_int (format_int (negsuc n)) bits ≡ (neg_ℕ (2 ^ (bits - 1)), some range)
unfolding format_int
parse_int-format_int_under n bits h k =
    unfold parse_int in rw (parse_uint-format_nat (suc n) bits h) (ground arith)

-- The text of a number does not start with a minus sign.
pub format_nat-ne-minus :
    (n : ℕ)
    → (c : Char) × (s : String) × (format_nat n ≡ String.◌∷◌ c s) × ((code c == b'-') ≡ false)
format_nat-ne-minus n =
    let (d, t, h, e) = format_nat-StartsWithDigit n in
    (digit d, t, e, rw (code-digit d h) (ground arith))
