-- ===== src/Tests/WriteRuns.antt =====
-- Runs of the write side: five points cut in twos, written to a server that accepts or refuses them.
use syncflux.Prelude.{
  arith, ℕ, ◌+◌, ◌-◌, ◌<◌, ◌≤◌, min, max, pos, ◌≡◌, refl, Bool, true, false, Option, none, some,
  List, [], ◌∷◌, map, length, All,
}
use syncflux.Go.{Error, ret, err}
use syncflux.Try.{max_retries, do_retry}
use syncflux.Try.Reference.{repeat, up_to, relabel, do_retry-repeat}
use syncflux.Influx.{Points, BatchConfig, Placed}
use syncflux.Tests.CopiedRuns.{kept_by, stored_by}
use syncflux.Agent.Write.{write_batches, bp_split, write_db}
use syncflux.Agent.Write.Split.{live, all_slots, bp_split_lossless}
use syncflux.Agent.Write.Stored.{write_batches_give_up, write_db_stores, write_db_loses}
use syncflux.Tests.Toy.{
  Point, Batch, World, Stored, points_api, points_laws, empty_batch, world, client, refused,
}

abbrev config : BatchConfig
config = record { database = "db1"; retention_policy = "kept"; precision = "ns" }

abbrev point : ℕ → Point
point t = record { name = "cpu"; tags = []; fields = []; time = pos t }

abbrev five : Batch
five = record { batch_config = config; points = map (λ t. some (point t)) (1 ∷ 2 ∷ 3 ∷ 4 ∷ 5 ∷ []) }

bp_split_lossless_example :
    (bs : List Batch) × (bp_split points_api five (pos 2) ≡ ret bs)
    × (live (all_slots points_api bs) ≡ live five.points)
    × All (λ b. (b.batch_config ≡ config) × (length b.points ≤ 2)) bs
bp_split_lossless_example =
    bp_split_lossless points_api points_laws five (empty_batch config) 2 refl (omega arith)

write_db_stores_example :
    (e : Option Error) × (w' : World) × (write_db points_api client 3 (pos 2) true five world
      ≡ (ret e, w'))
    × (e ≡ none → All (λ p. Stored w' (true, config, p)) (live five.points))
    × ((p : Placed Bool Point) → Stored world p → Stored w' p)
write_db_stores_example =
    write_db_stores points_api client true 3 Stored (λ b w p h. kept_by true b w p h)
      (λ b w e. stored_by true b w e) 2 five (empty_batch config) world points_laws (omega arith)
      refl

-- A library that makes no batch.
abbrev broken : Points Point Batch
broken = record points_api { new_batch = λ conf. err refused }

write_db_loses_example : write_db broken client 3 (pos 2) true five world ≡ (ret none, world)
write_db_loses_example =
    write_db_loses broken client 3 true 2 five refused world (omega arith) (omega arith) refl

write_batches_give_up_example :
    (e : Error) × ((write_batches client 3 false (five ∷ []) world).0 ≡ some e)
    × ((write_batches client 3 false (five ∷ []) world).1.writes ≡ 0 + min (max 3 1) max_retries)
    × (max_retries < 3 → e ≡ Error.max_retries_reached)
write_batches_give_up_example =
    write_batches_give_up client false 3 (λ w. w.writes) (λ b w. (refused, refl)) (λ b w. refl) five
      [] world

do_retry-repeat_example :
    do_retry (repeat 3 (client.write false five)) world
    ≡ relabel 3 (up_to (min (3 - 1) (max_retries - 1)) (client.write false five) world)
do_retry-repeat_example = do_retry-repeat 3 (client.write false five) world
