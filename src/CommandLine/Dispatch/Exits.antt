-- ===== src/CommandLine/Dispatch/Exits.antt =====
-- The exits of main once the PID file is written.
use syncflux.Prelude.{
  arith, ℕ, ◌≡◌, refl, ap, Option-cases, ◌≢◌, ◌↔◌, ◌⊎◌, inl, inr, String, Option, none, some,
  eq_iff,
}
use syncflux.Go.{ret, ◌>>=◌, pure, Action, Outcome-cases}
use syncflux.Go.Time.{Time}
use syncflux.Config.{Config}
use syncflux.Influx.{Points, Client}
use syncflux.Agent.Discovery.{Libraries}
use syncflux.Agent.Cluster.{HaCluster}
use syncflux.Agent.Actions.{with_cluster}
use syncflux.CommandLine.InputTime.{Clock, parse_input_time}
use syncflux.CommandLine.Settings.{Flags}
use syncflux.CommandLine.Prepare.{Times, Prepared, override, prepare}
use syncflux.CommandLine.Dispatch.{exited, idle, ran, action_of, launch}

-- A text is given and cannot be parsed.
abbrev pub IsBad : {A : Type 0} → (String → Option A) → String → Type 0
IsBad parse text = (text ≢ "") × (parse text ≡ none)

override-IsBad :
    {A : Type 0} (parse : String → Option A) (text : String) (value : A)
    → (override parse text value ≡ none) ↔ IsBad parse text
unfolding override
override-IsBad parse text value = ground (arith, eq_iff text "")

prepare-IsBad :
    (parsers : Clock) (times : Times) (flags : Flags) (config : Config)
    → (prepare parsers times flags config ≡ none) ↔ (
        IsBad (parse_input_time parsers) flags.end
        ⊎ (IsBad (parse_input_time parsers) flags.start ⊎ IsBad parsers.parse_duration flags.chunk))
unfolding prepare
prepare-IsBad parsers times flags config = ground (
  arith,
  override-IsBad (parse_input_time parsers) flags.end times.end,
  override-IsBad (parse_input_time parsers) flags.start times.start,
  override-IsBad parsers.parse_duration flags.chunk config.general.data_chunk_duration,
)

module _ {P B C W : Type 0} (parse_float : String → ℕ) (api : Points P B) (client : Client C W B)
    (clock : W → Time) (libraries : Libraries) where
  refused :
      (sleep : W → W) (parsers : Clock) (times : Times) (flags : Flags) (config : Config)
      (master slave : String) (rounds : ℕ) (w : W)
      → prepare parsers times flags config ≡ none
      → launch parse_float api client clock libraries sleep parsers times flags config master slave
          rounds w
        ≡ (ret (exited 1), w)
  unfolding launch
  refused sleep parsers times flags config master slave rounds w e = ground (arith, e)

  ran_not_exited :
      (m : Action W (Option (HaCluster C))) (w : W) (n : ℕ)
      → ((m >>= λ found. pure (ran found)) w).0 ≢ ret (exited n)
  ran_not_exited m w n = elim (Outcome-cases ((m w).0)) [
    | inl e ↦ ground (arith, e)
    | inr (found, e) ↦ ground (arith, e)
  ]

  -- A run that is accepted, by its action.
  pub idles :
      (sleep : W → W) (parsers : Clock) (times : Times) (flags : Flags) (config : Config)
      (master slave : String) (rounds : ℕ) (w : W) (p : Prepared)
      → prepare parsers times flags config ≡ some p
      → action_of parse_float api client clock libraries flags p ≡ none
      → launch parse_float api client clock libraries sleep parsers times flags config master slave
          rounds w
        ≡ (ret idle, w)
  unfolding launch
  idles sleep parsers times flags config master slave rounds w p e a = ground (arith, e, a)

  pub acts :
      (sleep : W → W) (parsers : Clock) (times : Times) (flags : Flags) (config : Config)
      (master slave : String) (rounds : ℕ) (w : W) (p : Prepared)
      (act : HaCluster C → Action W (HaCluster C))
      → prepare parsers times flags config ≡ some p
      → action_of parse_float api client clock libraries flags p ≡ some act
      → launch parse_float api client clock libraries sleep parsers times flags config master slave
          rounds w
        ≡ (with_cluster parse_float api client p.config.general clock libraries sleep p.config
                master slave rounds act
              >>= λ found. pure (ran found))
            w
  unfolding launch
  acts sleep parsers times flags config master slave rounds w p act e a = rw (e, launch) (rw a refl)

  accepted :
      (sleep : W → W) (parsers : Clock) (times : Times) (flags : Flags) (config : Config)
      (master slave : String) (rounds : ℕ) (w : W) (p : Prepared)
      → prepare parsers times flags config ≡ some p
      → (launch parse_float api client clock libraries sleep parsers times flags config master slave
          rounds w).0
        ≢ ret (exited 1)
  accepted sleep parsers times flags config master slave rounds w p e =
      elim (Option-cases (action_of parse_float api client clock libraries flags p)) [
        | inl a ↦
            rw (idles sleep parsers times flags config master slave rounds w p e a) (ground arith)
        | inr (act, a) ↦
            rw (acts sleep parsers times flags config master slave rounds w p act e a) (
              ran_not_exited
                (with_cluster parse_float api client p.config.general clock libraries sleep p.config
                  master slave rounds act)
                w 1)
      ]

  -- After the PID file, main exits with 1 exactly where the end, the start or the chunk is given as a text that cannot
  -- be parsed; no database has been asked anything then.
  pub launch_exits :
      (sleep : W → W) (parsers : Clock) (times : Times) (flags : Flags) (config : Config)
      (master slave : String) (rounds : ℕ) (w : W)
      → let run =
          launch parse_float api client clock libraries sleep parsers times flags config master
            slave rounds w in
        let bad =
          IsBad (parse_input_time parsers) flags.end
          ⊎ (IsBad (parse_input_time parsers) flags.start
              ⊎ IsBad parsers.parse_duration flags.chunk) in
        ((run.0 ≡ ret (exited 1)) ↔ bad) × (bad → run.1 ≡ w)
  launch_exits sleep parsers times flags config master slave rounds w =
      let e = prepare-IsBad parsers times flags config in
      let refuse = refused sleep parsers times flags config master slave rounds w in
      let accept = accepted sleep parsers times flags config master slave rounds w in
      (
        (
          λ run. elim (Option-cases (prepare parsers times flags config)) [
            | inl bad ↦ e.0 bad
            | inr (p, good) ↦ absurd (accept p good run)
          ],
          λ bad. ap (λ r. r.0) (refuse (e.1 bad)),
        ),
        λ bad. ap (λ r. r.1) (refuse (e.1 bad)),
      )
