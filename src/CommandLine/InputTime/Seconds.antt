-- ===== src/CommandLine/InputTime/Seconds.antt =====
-- Which numbers of seconds parseInputTime takes.
use syncflux.Prelude.{arith, ◌^◌, ◌≤◌, ◌<◌, ◌≡◌, ℤ, pos, negsuc, pos_part, neg_part, none, some}
use syncflux.Go.Strconv.{format_int}
use syncflux.Go.Strconv.RoundTrip.{
  parse_int-format_int_of, parse_int-format_nat_over, parse_int-format_int_under,
  format_nat-ne-minus,
}
use syncflux.Go.Time.{unix, add}
use syncflux.CommandLine.InputTime.{Clock, parse_input_time, relative_or_date, has_minus}

within :
    (clock : Clock) (z : ℤ)
    → pos_part z < 2 ^ 31
    → neg_part z ≤ 2 ^ 31
    → parse_input_time clock (format_int z) ≡ some (unix z (pos 0))
unfolding parse_input_time
within clock z h k = ground (arith, parse_int-format_int_of 32 z (omega arith) h k)

late :
    (clock : Clock) (z : ℤ)
    → 2 ^ 31 ≤ pos_part z
    → pos_part z < 2 ^ 32
    → parse_input_time clock (format_int z) ≡ clock.parse_rfc3339 (format_int z)
unfolding parse_input_time relative_or_date has_minus format_int
late clock (pos n) h k =
    let (c, s, text, digit) = format_nat-ne-minus n in
    rw (parse_int-format_nat_over n 32 (omega arith) h, parse_input_time)
      (rw (text, relative_or_date, has_minus) (ground (arith, digit)))
late clock (negsuc n) h k = absurd (omega (arith, h))

early :
    (clock : Clock) (z : ℤ)
    → 2 ^ 31 < neg_part z
    → neg_part z < 2 ^ 32
    → parse_input_time clock (format_int z) ≡ (elim (clock.parse_duration (format_int z)) [
      | none ↦ none
      | some dur ↦ some (add clock.now dur)
    ])
unfolding parse_input_time relative_or_date has_minus
early clock (pos n) h k = absurd (omega (arith, h))
early clock (negsuc n) h k =
    rw (parse_int-format_int_under n 32 (omega arith) h, parse_input_time)
      (unfold format_int in ground arith)

-- The decimal text of a number of seconds since 1970 is that instant if the number fits 32 bits. Above, from
-- 2^31 on, in the year 2038, and below 2^32, it is taken for a date; below -2^31 and above -2^32, for a duration from
-- now.
pub parse_input_time_seconds :
    (clock : Clock) (z : ℤ)
    → (pos_part z < 2 ^ 31
        → neg_part z ≤ 2 ^ 31
        → parse_input_time clock (format_int z) ≡ some (unix z (pos 0)))
      × (2 ^ 31 ≤ pos_part z
          → pos_part z < 2 ^ 32
          → parse_input_time clock (format_int z) ≡ clock.parse_rfc3339 (format_int z))
      × (2 ^ 31 < neg_part z
          → neg_part z < 2 ^ 32
          → parse_input_time clock (format_int z) ≡ (elim (clock.parse_duration (format_int z)) [
            | none ↦ none
            | some dur ↦ some (add clock.now dur)
          ]))
parse_input_time_seconds clock z =
    (λ h k. within clock z h k, λ h k. late clock z h k, λ h k. early clock z h k)
