-- ===== src/Agent/Write.antt =====
-- BpSplit and WriteDB of pkg/agent/client.go: a batch of points is cut into batches of a bounded size,
-- which are written one after the other, each with retries.
pub mod Split
pub mod Stored
use syncflux.Prelude.{
  ℕ, zero, suc, ◌+◌, ◌-◌, ◌*◌, ◌/◌, ℤ, pos, negsuc, Option, none, some, List, [], ◌∷◌, ◌++◌, ltb,
  ◌==◌, if◌then◌else◌, length, take, drop, replicate,
}
use syncflux.Go.{Error, Outcome, ret, panic, Action, Result, ok, err}
use syncflux.Influx.{Points, Client}
use syncflux.Try.{Func, do_retry}

-- min.
unfoldable pub min : ℕ → ℕ → ℕ
min a b = if ltb a b then a else b

-- Go's `copy(dst, src)`: the slots of `dst` that `src` does not reach keep their value.
unfoldable pub copy : {A : Type 0} → List A → List A → List A
copy [] src = []
copy (d ∷ dst) [] = d ∷ dst
copy (d ∷ dst) (s ∷ src) = s ∷ copy dst src

-- Go's `xs[lo:hi]`.
abbrev pub slice : {A : Type 0} → List A → ℕ → ℕ → List A
slice xs lo hi = take (hi - lo) (drop lo xs)

module _ {P B : Type 0} (api : Points P B) where
  open api use {new_batch, add_points, slots, config}

  -- The points of the `i`-th part, in a slice of `splitnum` pointers that starts out nil.
  unfoldable pub pointchunk : ℕ → ℕ → List (Option P) → List (Option P)
  pointchunk splitnum i points =
      copy (replicate splitnum none)
        (slice points (i * splitnum) (min ((i + 1) * splitnum) (length points)))

  -- The loop of BpSplit, with `lim - i` rounds left and the batches made so far. An error of
  -- NewBatchPoints returns nil, the empty slice.
  unfoldable pub split_from : ℕ → ℕ → ℕ → B → List B → List B
  split_from zero i splitnum bp made = made
  split_from (suc rounds) i splitnum bp made = elim (new_batch (config bp)) [
    | ok newbp ↦
        split_from rounds (i + 1) splitnum bp
          (made ++ add_points newbp (pointchunk splitnum i (slots bp)) ∷ [])
    | err e ↦ []
  ]

  -- BpSplit. A zero `splitnum` divides by zero. For a negative one `lim` is `1 - len / -splitnum`: if
  -- that is negative, making the result panics; at zero no round is made; at one the first round
  -- panics on making a slice of negative length, unless NewBatchPoints fails before.
  unfoldable pub bp_split : B → ℤ → Outcome (List B)
  bp_split bp (pos zero) = panic
  bp_split bp (pos (suc n)) =
      let splitnum = suc n in
      let len = length (slots bp) in
      if ltb len splitnum
      then ret (bp ∷ [])
      else ret (split_from (len / splitnum + 1) 0 splitnum bp [])
  bp_split bp (negsuc n) =
      let quotient = length (slots bp) / suc n in
      if quotient == 0
      then elim (new_batch (config bp)) [ ok newbp ↦ panic | err e ↦ ret [] ]
      else if quotient == 1
      then ret []
      else panic

module _ {B C W : Type 0} (client : Client C W B) where
  -- The closure that WriteDB retries.
  abbrev pub write_attempt : ℕ → C → B → Func W
  write_attempt max_retries c b attempt w =
      let (werr, w') = client.write c b w in (ltb attempt max_retries, werr, w')

  -- The loop of WriteDB: the first batch that cannot be written ends it.
  unfoldable pub write_batches : ℕ → C → List B → W → Option Error × W
  write_batches max_retries c [] w = (none, w)
  write_batches max_retries c (b ∷ sbp) w =
      let (werr, w') = do_retry (write_attempt max_retries c b) w in
      let rest = write_batches max_retries c sbp w' in
      elim werr [ none ↦ rest | some e ↦ (some e, w') ]

module _ {P B C W : Type 0} (api : Points P B) (client : Client C W B) where
  -- WriteDB, with `RWMaxRetries` and `MaxPointsOnSingleWrite` of the configuration.
  unfoldable pub write_db : ℕ → ℤ → C → B → Action W (Option Error)
  write_db max_retries max_points c bp w = elim (bp_split api bp max_points) [
    | ret sbp ↦ let (werr, w') = write_batches client max_retries c sbp w in (ret werr, w')
    | panic ↦ (panic, w)
  ]
