-- ===== src/CommandLine/Prepare/Defaults.antt =====
-- The time span of a copy that is given none.
use syncflux.Prelude.{
  arith, ℕ, ◌+◌, ◌*◌, ◌/◌, ◌^◌, ◌<◌, min, ◌≡◌, refl, ap, sym, Option-cases, ◌∙◌, pos, ◌+ℤ◌, ◌-ℤ◌,
  +ℤ_parts, -ℤ_parts, eq_of_parts, neg_ℕ, String, some, Option,
}
use mathlib.Core.Path.{ap₂}
use syncflux.Go.Time.{Time, add}
use syncflux.Config.{Config}
use syncflux.Agent.Chunks.{h_length}
use syncflux.Agent.Sync.Span.{h_length_lem}
use syncflux.CommandLine.InputTime.{Clock, parse_input_time}
use syncflux.CommandLine.Settings.{Flags}
use syncflux.CommandLine.Prepare.{Prepared, prepare, override, initial_times}

start_before_end :
    (first : Time) (d : ℕ) → first +ℤ neg_ℕ (3600 * 24) ≡ (first +ℤ pos d) -ℤ pos (3600 * 24 + d)
start_before_end first d = eq_of_parts _ _ (
    omega (
      arith,
      +ℤ_parts first (neg_ℕ (3600 * 24)),
      +ℤ_parts first (pos d),
      -ℤ_parts (first +ℤ pos d) (pos (3600 * 24 + d)),
    ))

override_absent :
    {A : Type 0} (parse : String → Option A) (text : String) (value : A)
    → text ≡ ""
    → override parse text value ≡ some value
unfolding override
override_absent parse text value e = rw (e, override) refl

taken :
    (parsers : Clock) (first : Time) (d : ℕ) (flags : Flags) (config : Config) (p : Prepared)
    → flags.start ≡ ""
    → flags.end ≡ ""
    → prepare parsers (initial_times first (first +ℤ pos d)) flags config ≡ some p
    → (p.span.end ≡ first +ℤ pos d) × (p.span.start ≡ (first +ℤ pos d) -ℤ pos (86400 + d))
unfolding prepare initial_times add
taken parsers first d flags config p s e run =
    let chunk =
      Option-cases
        (override parsers.parse_duration flags.chunk config.general.data_chunk_duration) in
    let start_kept =
      override_absent (parse_input_time parsers) flags.start
        (initial_times first (first +ℤ pos d)).start s in
    let end_kept =
      override_absent (parse_input_time parsers) flags.end
        (initial_times first (first +ℤ pos d)).end e in
    (
      ground (arith, start_kept, end_kept, run, chunk),
      ground (arith, start_kept, end_kept, run, chunk, start_before_end first d),
    )

small : (n u : ℕ) → n < u → n / u ≡ 0
small n u h = grind arith

-- A copy that is given no start and no end, in a process whose two readings of the clock are `d` nanoseconds
-- apart, is of the last 86400 + d nanoseconds, so that Sync cuts it into a single chunk, if
-- chunks are longer than that.
pub default_span_lem :
    (parsers : Clock) (first : Time) (d u m : ℕ) (flags : Flags) (config : Config) (p : Prepared)
    → flags.start ≡ ""
    → flags.end ≡ ""
    → prepare parsers (initial_times first (first +ℤ pos d)) flags config ≡ some p
    → 86400 + d < u
    → 86400 + d < 2 ^ 62
    → m < 2 ^ 62
    → (p.span.end ≡ first +ℤ pos d)
      × (p.span.start ≡ p.span.end -ℤ pos (86400 + d))
      × (h_length p.span.start p.span.end (pos u) (pos m) ≡ pos 1)
default_span_lem parsers first d u m flags config p s e run hu hd hm =
    let (end_is, start_is) = taken parsers first d flags config p s e run in
    let one_chunk : pos (min ((86400 + d) / u) (m / u) + 1) ≡ pos 1 =
      ap pos (omega (arith, small (86400 + d) u hu)) in
    (
      end_is,
      start_is ∙ ap (λ t. t -ℤ pos (86400 + d)) (sym end_is),
      ap₂ (λ a b. h_length a b (pos u) (pos m)) start_is end_is
          ∙ h_length_lem (first +ℤ pos d) (86400 + d) u m hd hm
          ∙ one_chunk,
    )
