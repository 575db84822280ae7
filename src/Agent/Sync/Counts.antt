-- ===== src/Agent/Sync/Counts.antt =====
-- What the counters of a chunk count of the ends of its jobs.
use syncflux.Prelude.{ℕ, ◌+◌, ◌≤◌, ◌≡◌, Bool, List, ◌∷◌, arith, true, false, length, sum_of, filter}
use syncflux.Agent.Chunks.{
  ChunkReport, JobEnd, Counters, count_end, read_error, write_error, written,
}

abbrev pub is_read_error : JobEnd → Bool
is_read_error read_error = true
is_read_error _ = false

abbrev pub is_write_error : JobEnd → Bool
is_write_error (write_error _) = true
is_write_error _ = false

-- The points that a job has read.
abbrev pub points_read : JobEnd → ℕ
points_read read_error = 0
points_read (write_error np) = np
points_read (written np) = np

-- Counters, after some jobs have come to these ends.
pub record IsTally (k : Counters) (es : List JobEnd) (k' : Counters) : Type 0 where
  pub reads : k'.read_errors ≡ k.read_errors + length (filter is_read_error es)
  pub writes : k'.write_errors ≡ k.write_errors + length (filter is_write_error es)
  pub points : k'.totalpoints ≡ k.totalpoints + sum_of points_read es

pub count_end-IsTally :
    (done : JobEnd) (k k' : Counters) (es : List JobEnd)
    → IsTally (count_end done k) es k'
    → IsTally k (done ∷ es) k'
unfolding count_end
count_end-IsTally read_error k k' es t = record {
  reads = omega (arith, t.reads);
  writes = omega (arith, t.writes);
  points = omega (arith, t.points);
}
count_end-IsTally (write_error np) k k' es t = record {
  reads = omega (arith, t.reads);
  writes = omega (arith, t.writes);
  points = omega (arith, t.points);
}
count_end-IsTally (written np) k k' es t = record {
  reads = omega (arith, t.reads);
  writes = omega (arith, t.writes);
  points = omega (arith, t.points);
}

-- What a report counts of its jobs.
abbrev pub Counts : ChunkReport → List JobEnd → Type 0
Counts r es =
    (r.read_errors ≡ length (filter is_read_error es))
    × (r.write_errors ≡ length (filter is_write_error es))
    × (r.processed_points ≡ sum_of points_read es)

pub count_end_errors :
    (done : JobEnd) (k : Counters)
    → (count_end done k).read_errors + (count_end done k).write_errors
      ≤ k.read_errors + k.write_errors + 1
unfolding count_end
count_end_errors done k = ground arith
