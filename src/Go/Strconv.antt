-- ===== src/Go/Strconv.antt =====
-- What the program uses of Go's package strconv: decimal integers, printed and parsed.
pub mod RoundTrip
use Prim.Native.Char.{Char, code}
use syncflux.Prelude.{
  ℕ, zero, suc, ◌+◌, ◌-◌, ◌*◌, ◌/◌, ◌%◌, ◌^◌, ℤ, pos, negsuc, neg_ℕ, Bool, ◌&&◌, Option, none, some,
  String, ltb, leb, ◌==◌, if◌then◌else◌,
}

pub data NumError : Type 0 where
  syntax range : NumError

abbrev pub max_uint64 : ℕ
max_uint64 = 2 ^ 64 - 1

abbrev is_digit : ℕ → Bool
is_digit c = leb b'0' c && leb c b'9'

-- The loop of ParseUint in base 10. It stops where the value passes `max`.
unfoldable pub parse_digits : ℕ → ℕ → String → ℕ × Option NumError
parse_digits max n String.[] = (n, none)
parse_digits max n (String.◌∷◌ c s) =
    let n' = n * 10 + (code c - b'0') in
    let rest = parse_digits max n' s in
    if is_digit (code c) then (if ltb max n' then (max, some range) else rest) else (0, some syntax)

-- ParseUint(s, 10, bits): the value, which a range error leaves at the largest.
unfoldable pub parse_uint : String → ℕ → ℕ × Option NumError
unfolding parse_digits
parse_uint String.[] bits = (0, some syntax)
parse_uint (String.◌∷◌ c s) bits = parse_digits (2 ^ bits - 1) 0 (String.◌∷◌ c s)

-- The signed value of a magnitude, cut to `bits` bits.
unfoldable pub apply_sign : ℕ → Bool → ℕ × Option NumError → ℤ × Option NumError
apply_sign bits minus (n, some syntax) = (pos 0, some syntax)
apply_sign bits Bool.true (n, e) =
    if ltb (2 ^ (bits - 1)) n then (neg_ℕ (2 ^ (bits - 1)), some range) else (neg_ℕ n, none)
apply_sign bits Bool.false (n, e) =
    if ltb n (2 ^ (bits - 1)) then (pos n, none) else (pos (2 ^ (bits - 1) - 1), some range)

-- ParseInt(s, 10, bits).
unfoldable pub parse_int : String → ℕ → ℤ × Option NumError
unfolding parse_uint apply_sign
parse_int String.[] bits = (pos 0, some syntax)
parse_int (String.◌∷◌ c s) bits =
    if code c == b'-'
    then apply_sign bits Bool.true (parse_uint s bits)
    else if code c == b'+'
    then apply_sign bits Bool.false (parse_uint s bits)
    else apply_sign bits Bool.false (parse_uint (String.◌∷◌ c s) bits)

abbrev digit : ℕ → Char
digit zero = "0"
digit (suc zero) = "1"
digit (suc (suc zero)) = "2"
digit (suc (suc (suc zero))) = "3"
digit (suc (suc (suc (suc zero)))) = "4"
digit (suc (suc (suc (suc (suc zero))))) = "5"
digit (suc (suc (suc (suc (suc (suc zero)))))) = "6"
digit (suc (suc (suc (suc (suc (suc (suc zero))))))) = "7"
digit (suc (suc (suc (suc (suc (suc (suc (suc zero)))))))) = "8"
digit (suc (suc (suc (suc (suc (suc (suc (suc (suc n))))))))) = "9"

-- The digits of `n` before `out`; one round of fuel for each digit.
unfoldable pub digits_before : ℕ → ℕ → String → String
digits_before zero n out = out
digits_before (suc fuel) n out =
    let more = digits_before fuel (n / 10) (String.◌∷◌ (digit (n % 10)) out) in
    if ltb n 10 then String.◌∷◌ (digit n) out else more

-- FormatInt(n, 10) for a number that is not negative.
unfoldable pub format_nat : ℕ → String
unfolding digits_before
format_nat n = digits_before (suc n) n ""

-- FormatInt(z, 10).
unfoldable pub format_int : ℤ → String
unfolding format_nat
format_int (pos n) = format_nat n
format_int (negsuc n) = String.◌∷◌ "-" (format_nat (suc n))
