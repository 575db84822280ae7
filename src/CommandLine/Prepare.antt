-- ===== src/CommandLine/Prepare.antt =====
-- main of pkg/main.go up to the switch on the action: the times and the chunk are parsed.
pub mod Defaults
use syncflux.Prelude.{neg_ℕ, ◌*◌, String, Option, none, some, str_eq, if◌then◌else◌}
use syncflux.Go.Time.{Time, Duration, add}
use syncflux.Config.{Config}
use syncflux.Agent.Actions.{Span}
use syncflux.CommandLine.InputTime.{Clock, parse_input_time}
use syncflux.CommandLine.Settings.{Flags}

-- An error ends the program.
infixl 5 ◌>>=◌
abbrev ◌>>=◌ : {A B : Type 0} → Option A → (A → Option B) → Option B
none >>= f = none
some a >>= f = f a

-- `if len(text) > 0 { value, err = parse(text) }`, from a value that stands where there is no text; none for
-- the exit on an error.
unfoldable pub override : {A : Type 0} → (String → Option A) → String → A → Option A
override parse text value = if str_eq text "" then some value else parse text

-- The values of the variables `starttime` and `endtime` before main.
pub record Times : Type 0 where
  pub start : Time
  pub end : Time

-- The two, where the clock reads `first` for the one and `later` for the other: `time.Now().Add(-3600 * 24)`
-- and `time.Now()`. A Duration counts nanoseconds.
unfoldable pub initial_times : Time → Time → Times
initial_times first later = record { start = add first (neg_ℕ (3600 * 24)); end = later }

-- What main settles before the switch.
pub record Prepared : Type 0 where
  pub config : Config
  pub span : Span

unfoldable with_chunk : Config → Duration → Config
with_chunk config dur = record config {
  general = record config.general { data_chunk_duration = dur };
}

-- The part of main before the switch: the end first.
unfoldable pub prepare : Clock → Times → Flags → Config → Option Prepared
unfolding override with_chunk parse_input_time
prepare clock times flags config = do
  end ← override (parse_input_time clock) flags.end times.end
  start ← override (parse_input_time clock) flags.start times.start
  dur ← override clock.parse_duration flags.chunk config.general.data_chunk_duration
  some (record {
    config = with_chunk config dur;
    span = record { start = start; end = end; full = flags.full };
  })
