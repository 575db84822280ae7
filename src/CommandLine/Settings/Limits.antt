-- ===== src/CommandLine/Settings/Limits.antt =====
-- The limits and the names that init settles, as the agent uses them.
use syncflux.Prelude.{
  arith, ℕ, zero, suc, pos, String, false, ◌≡◌, refl, ap, ◌∙◌, Option, some, eq_iff, List, ◌≤◌, ◌<◌,
  All, length,
}
use syncflux.Go.{ret, ok}
use syncflux.Go.Time.{Time}
use syncflux.Config.{Config}
use syncflux.Influx.{Points, PointsLaws, Client}
use syncflux.Agent.Write.{bp_split}
use syncflux.Agent.Write.Split.{live, all_slots, bp_split_lossless}
use syncflux.Agent.Startup.{choose, init_cluster}
use syncflux.CommandLine.Settings.{
  Flags, Levels, Settings, starts, start_up, settle, config_defaults, or_default,
}

-- The limit of points that a configured limit stands for.
abbrev pub limit_of : ℕ → ℕ
limit_of zero = 10000
limit_of (suc n) = suc n

or_default_limit : (n : ℕ) → or_default (pos 10000) (pos n) ≡ pos (limit_of n)
unfolding or_default
or_default_limit zero = refl
or_default_limit (suc n) = ground arith

limit_of_positive : (n : ℕ) → 0 < limit_of n
limit_of_positive zero = omega arith
limit_of_positive (suc n) = omega arith

settle-limit :
    {L : Type 0} (levels : Levels L) (flags : Flags) (cfg : Config) (n : ℕ)
    → cfg.general.max_points_on_single_write ≡ pos n
    → (settle levels flags cfg).config.general.max_points_on_single_write ≡ pos (limit_of n)
unfolding settle config_defaults
settle-limit levels flags cfg n limit = ap (or_default (pos 10000)) limit ∙ or_default_limit n

-- With a configuration whose limit of points on a write is not negative, and without the flag for the version, init
-- settles without an exit, and by the limit that it settles every batch for which the library makes the new ones is
-- split without a panic: into batches of at most so many points as
-- configured, or 10000 for a zero, which hold the points of the batch in their order.
pub start_up_splits :
    {L : Type 0} (levels : Levels L) (load : String → Option Config) (flags : Flags) (cfg : Config)
    (n : ℕ)
    → flags.version ≡ false
    → load flags.config_file ≡ some cfg
    → cfg.general.max_points_on_single_write ≡ pos n
    → {P B : Type 0} (api : Points P B) (laws : PointsLaws api) (bp newbp : B)
    → api.new_batch (api.config bp) ≡ ok newbp
    → (s : Settings L) × (start_up levels load flags ≡ starts s)
      × ((bs : List B) × (bp_split api bp s.config.general.max_points_on_single_write ≡ ret bs)
          × (live (all_slots api bs) ≡ live (api.slots bp))
          × All (λ b. (api.config b ≡ api.config bp) × (length (api.slots b) ≤ limit_of n)) bs)
unfolding start_up
start_up_splits levels load flags cfg n h loaded limit api laws bp newbp fresh = (
  settle levels flags cfg,
  ground (arith, h, loaded),
  rw (settle-limit levels flags cfg n limit)
      (bp_split_lossless api laws bp newbp (limit_of n) fresh (limit_of_positive n)),
)

choose-choose :
    (name configured : String) → choose (choose name configured) configured ≡ choose name configured
unfolding choose
choose-choose name configured = ground (arith, eq_iff name "")

start_up-settle :
    {L : Type 0} (levels : Levels L) (load : String → Option Config) (flags : Flags) (cfg : Config)
    (s : Settings L)
    → load flags.config_file ≡ some cfg
    → start_up levels load flags ≡ starts s
    → s ≡ settle levels flags cfg
unfolding start_up
start_up-settle levels load flags cfg s loaded started = ground (arith, loaded, started)

-- The names that init settles are those that the start of the cluster would settle itself: it finds the same
-- cluster with the names of the flags.
pub start_up-init_cluster :
    {B C W L : Type 0} (client : Client C W B) (clock : W → Time) (sleep : W → W)
    (levels : Levels L) (load : String → Option Config) (flags : Flags) (cfg : Config)
    (s : Settings L) (rounds : ℕ) (w : W)
    → load flags.config_file ≡ some cfg
    → start_up levels load flags ≡ starts s
    → init_cluster client clock sleep s.config s.master s.slave rounds w
      ≡ init_cluster client clock sleep s.config flags.master flags.slave rounds w
unfolding settle config_defaults init_cluster
start_up-init_cluster client clock sleep levels load flags cfg s rounds w loaded started =
    rw (start_up-settle levels load flags cfg s loaded started) (
      rw
        (
          choose-choose flags.master cfg.general.master_db,
          choose-choose flags.slave cfg.general.slave_db,
        )
        refl)
