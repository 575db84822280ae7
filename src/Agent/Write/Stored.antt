-- ===== src/Agent/Write/Stored.antt =====
-- What WriteDB promises: a nil error means that every point is in the target database, and an error
-- is returned only after the configured number of attempts.
use mathlib.Core.Path.{subst}
use syncflux.Prelude.{
  ℕ, zero, suc, length, ltb, false, ◌/◌, ◌≤◌, ◌+◌, ◌-◌, ◌<◌, pos, ◌≡◌, refl, ap, ◌∙◌, Option, none,
  some, List, [], ◌∷◌, arith, inl, inr, min, max, leb, if◌then◌else◌, All, All-mono, All-append,
  Option-cases,
}
use syncflux.Go.{Error, max_retries_reached, ret, ok, err}
use syncflux.Influx.{Placed, BatchConfig, Points, PointsLaws, Client}
use syncflux.Try.{max_retries, do_retry}
use syncflux.Try.Reference.{
  up_to, relabel, do_retry-repeat, relabel_state, relabel-none, up_to_succeeds, up_to_keeps,
  up_to_fails, relabel-some,
}
use syncflux.Agent.Write.{write_attempt, write_batches, write_db, bp_split, split_from}
use syncflux.Agent.Write.Split.{live, live-append, all_slots, bp_split_lossless}

-- The loop of BpSplit, where it makes at least one round and the batches cannot be made.
rounds_lost :
    {P B : Type 0} (api : Points P B) (bp : B) (e : Error)
    → api.new_batch (api.config bp) ≡ err e
    → (rounds splitnum : ℕ) → split_from api (rounds + 1) 0 splitnum bp [] ≡ []
unfolding split_from
rounds_lost api bp e fails rounds splitnum =
    let more : rounds + 1 ≡ suc rounds = omega arith in rw (more, split_from, fails) refl

module _ {B C W : Type 0} (client : Client C W B) (c : C) (limit : ℕ) where
  -- One batch: `Do` around the write is the reference.
  pub write_one :
      (b : B) (w : W)
      → do_retry (write_attempt client limit c b) w
        ≡ relabel limit (up_to (min (limit - 1) (max_retries - 1)) (client.write c b) w)
  write_one b w = do_retry-repeat limit (client.write c b) w

  -- The steps of the loop.
  next_batch :
      (b : B) (bs : List B) (w : W)
      → (do_retry (write_attempt client limit c b) w).0 ≡ none
      → write_batches client limit c (b ∷ bs) w
        ≡ write_batches client limit c bs (do_retry (write_attempt client limit c b) w).1
  unfolding write_batches
  next_batch b bs w h = ground arith

  last_batch :
      (b : B) (bs : List B) (w : W) {e : Error}
      → (do_retry (write_attempt client limit c b) w).0 ≡ some e
      → write_batches client limit c (b ∷ bs) w
        ≡ (some e, (do_retry (write_attempt client limit c b) w).1)
  unfolding write_batches
  last_batch b bs w h = ground arith

  -- Against a target that refuses every write, the loop makes `min(max(limit, 1), 10)` attempts for the
  -- first batch, writes no other, and returns an error: `errMaxRetriesReached` if `limit` is above
  -- ten. (`calls` counts the writes that the client makes.)
  pub write_batches_give_up :
      (calls : W → ℕ)
      → ((b : B) (w : W) → (e : Error) × ((client.write c b w).0 ≡ some e))
      → ((b : B) (w : W) → calls (client.write c b w).1 ≡ calls w + 1)
      → (b : B) (bs : List B) (w : W)
      → (e : Error) × ((write_batches client limit c (b ∷ bs) w).0 ≡ some e)
        × (calls (write_batches client limit c (b ∷ bs) w).1
            ≡ calls w + min (max limit 1) max_retries)
        × (max_retries < limit → e ≡ max_retries_reached)
  write_batches_give_up calls bad one b bs w =
      let n = min (limit - 1) (max_retries - 1) in
      let (e, failed, count) = up_to_fails (client.write c b) calls (bad b) (one b) n w in
      let error = if leb limit max_retries then e else max_retries_reached in
      let whole = write_one b w ∙ relabel-some limit (up_to n (client.write c b) w) failed in
      let stop = last_batch b bs w (ap (λ r. r.0) whole) in
      (error, ap (λ r. r.0) stop, rw (stop, whole) (omega (arith, count)), λ over. ground arith)

module _ {P B C W : Type 0} (api : Points P B) (client : Client C W B) (c : C) (limit : ℕ)
    (stored : W → Placed C P → Type 0)
    (keeps : (b : B) (w : W) (p : Placed C P) → stored w p → stored (client.write c b w).1 p)
    (accepts : (b : B) (w : W)
      → (client.write c b w).0 ≡ none
      → All (λ p. stored (client.write c b w).1 (c, api.config b, p)) (live (api.slots b))) where
  one_keeps :
      (p : Placed C P) (b : B) (w : W)
      → stored w p
      → stored (do_retry (write_attempt client limit c b) w).1 p
  one_keeps p b w h =
      rw (write_one client c limit b w, relabel_state)
        (up_to_keeps (λ w'. stored w' p) (client.write c b) (λ w'. keeps b w' p) _ w h)

  one_stores :
      (b : B) (w : W)
      → (do_retry (write_attempt client limit c b) w).0 ≡ none
      → All
          (λ p. stored (do_retry (write_attempt client limit c b) w).1 (c, api.config b, p))
          (live (api.slots b))
  one_stores b w h =
      let done = relabel-none limit _ (rw (write_one client c limit b w) at h) in
      let (t, good, last) = up_to_succeeds _ (client.write c b) w done in
      rw (write_one client c limit b w, relabel_state)
        (subst (λ w'. All (λ p. stored w' (c, api.config b, p)) (live (api.slots b))) last
          (accepts b t good))

  batches_keep :
      (p : Placed C P) (bs : List B) (w : W)
      → stored w p
      → stored (write_batches client limit c bs w).1 p
  unfolding write_batches
  batches_keep p [] w h = h
  batches_keep p (b ∷ bs) w h =
      elim (Option-cases (do_retry (write_attempt client limit c b) w).0) [
        | inl done ↦
            rw (next_batch client c limit b bs w done) (batches_keep p bs _ (one_keeps p b w h))
        | inr (e, failed) ↦ rw (last_batch client c limit b bs w failed) (one_keeps p b w h)
      ]

  batches_store :
      (conf : BatchConfig) (bs : List B) (w : W)
      → All (λ b. api.config b ≡ conf) bs
      → (write_batches client limit c bs w).0 ≡ none
      → All
          (λ p. stored (write_batches client limit c bs w).1 (c, conf, p))
          (live (all_slots api bs))
  batches_store conf [] w same h = tt
  batches_store conf (b ∷ bs) w (here, same) h =
      elim (Option-cases (do_retry (write_attempt client limit c b) w).0) [
        | inl done ↦
            let next = next_batch client c limit b bs w done in
            let w1 = (do_retry (write_attempt client limit c b) w).1 in
            let first =
              subst (λ k. All (λ p. stored w1 (c, k, p)) (live (api.slots b))) here
                (one_stores b w done) in
            rw (live-append, next)
              (All-append _ (live (api.slots b)) _
                (All-mono (λ p. batches_keep (c, conf, p) bs w1) _ first)
                (batches_store conf bs w1 same (rw next at h)))
        | inr (e, failed) ↦
            let stop = last_batch client c limit b bs w failed in
            absurd (cc (ap (λ r. r.0) stop, h))
      ]

  -- WriteDB with a positive limit of points, where the library makes the batches that are asked for, does not panic,
  -- and when it returns no error every point of the batch is stored behind the connection, in the batch's database and
  -- retention policy; what was stored before stays there in any case. This is for a client whose successful write
  -- stores the points of the batch there, and whose writes, failing ones too, remove none.
  pub write_db_stores :
      (n : ℕ) (bp newbp : B) (w : W) (laws : PointsLaws api)
      → 0 < n
      → api.new_batch (api.config bp) ≡ ok newbp
      → (e : Option Error) × (w' : W) × (write_db api client limit (pos n) c bp w ≡ (ret e, w'))
        × (e ≡ none → All (λ p. stored w' (c, api.config bp, p)) (live (api.slots bp)))
        × ((p : Placed C P) → stored w p → stored w' p)
  unfolding write_db
  write_db_stores n bp newbp w laws h fresh =
      let (bs, split, same, sound) = bp_split_lossless api laws bp newbp n fresh h in
      (
        (write_batches client limit c bs w).0,
        (write_batches client limit c bs w).1,
        rw (split, write_db),
        λ done.
            rw (← same) (batches_store (api.config bp) bs w (All-mono (λ b q. q.0) bs sound) done),
        λ p. batches_keep p bs w,
      )

bp_split_lost :
    {P B : Type 0} (api : Points P B) (bp : B) (e : Error) (k : ℕ)
    → api.new_batch (api.config bp) ≡ err e
    → suc k ≤ length (api.slots bp)
    → bp_split api bp (pos (suc k)) ≡ ret []
unfolding bp_split
bp_split_lost api bp e k fails enough =
    let big : ltb (length (api.slots bp)) (suc k) ≡ false = ground arith in
    rw (big, rounds_lost api bp e fails (length (api.slots bp) / suc k) (suc k))

-- Where the library makes no batch for the configuration of a batch of at least as many points as the positive limit,
-- WriteDB writes nothing and returns no error: its points are lost without a word.
pub write_db_loses :
    {P B C W : Type 0} (api : Points P B) (client : Client C W B) (limit : ℕ) (c : C) (n : ℕ)
    (bp : B) (e : Error) (w : W)
    → 0 < n
    → n ≤ length (api.slots bp)
    → api.new_batch (api.config bp) ≡ err e
    → write_db api client limit (pos n) c bp w ≡ (ret none, w)
unfolding write_db write_batches
write_db_loses api client limit c zero bp e w h enough fails = absurd (omega (arith, h))
write_db_loses api client limit c (suc k) bp e w h enough fails =
    rw (bp_split_lost api bp e k fails enough, write_db)
