-- ===== src/CommandLine/InputTime.antt =====
-- parseInputTime of pkg/util.go.
pub mod Seconds
use Prim.Native.Char.{code}
use syncflux.Prelude.{pos, String, Bool, false, Option, none, some, ◌==◌, if◌then◌else◌}
use syncflux.Go.Strconv.{parse_int}
use syncflux.Go.Time.{Time, Duration, unix, add}

-- strings.HasPrefix(t, "-")
unfoldable pub has_minus : String → Bool
has_minus String.[] = false
has_minus (String.◌∷◌ c s) = code c == b'-'

-- What the function uses of package time, and the clock: time.ParseDuration and time.Parse for RFC3339.
pub record Clock : Type 0 where
  pub parse_duration : String → Option Duration
  pub parse_rfc3339 : String → Option Time
  pub now : Time

-- A text that starts with a minus sign and is no number of 32 bits is a duration from now.
unfoldable pub relative_or_date : Clock → String → Option Time
unfolding has_minus
relative_or_date clock t =
    if has_minus t
    then (elim (clock.parse_duration t) [ none ↦ none | some dur ↦ some (add clock.now dur) ])
    else clock.parse_rfc3339 t

-- parseInputTime; none for an error.
unfoldable pub parse_input_time : Clock → String → Option Time
unfolding relative_or_date
parse_input_time clock t =
    let (i, e) = parse_int t 32 in
    elim e [ none ↦ some (unix i (pos 0)) | some error ↦ relative_or_date clock t ]
