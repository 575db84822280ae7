-- ===== src/Agent/Replicate/Full.antt =====
-- ReplicateDataFull as a whole.
use syncflux.Prelude.{ℕ, zero, suc, ◌<◌, ◌^◌, ◌≡◌, pos, negsuc, ◌-ℤ◌}
use syncflux.Go.Time.{Time, Duration}
use syncflux.Agent.Schema.{RetPol}

-- A policy that keeps its data for a time within the bounds.
abbrev pub KeptSanely : RetPol → Type 0
KeptSanely rp = (n : ℕ) × (rp.duration ≡ pos n) × (n < 2 ^ 61)

-- What is copied of a policy in full: its own time, or the longest one if it keeps its data for ever.
abbrev pub time_kept : ℕ → Duration → ℕ
time_kept m (pos zero) = m
time_kept m (pos (suc n)) = suc n
time_kept m (negsuc n) = 0

abbrev pub full_span : ℕ → RetPol → Time → Time × Time
full_span m rp now = (now -ℤ pos (time_kept m rp.duration), now)
