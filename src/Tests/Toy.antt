-- ===== src/Tests/Toy.antt =====
-- A server that keeps what it is sent, in the place of the client library: its connections are `true`
-- where it accepts everything and `false` where it refuses everything.
use syncflux.Prelude.{
  ℕ, ◌+◌, ℤ, pos, ◌≡◌, refl, ap, sym, String, Bool, true, Option, none, some, List, [], ◌∷◌, ◌++◌,
  str_eq, if◌then◌else◌, ◌⊎◌, inl, inr, All, All-mono, map,
}
use syncflux.Go.{Error, external, Result, ok, err}
use syncflux.Config.{GeneralConfig, InfluxDb}
use syncflux.Influx.{
  Placed, Value, number, text, bool, Response, answered, failed, BatchConfig, Points, PointsLaws,
  Client,
}
use syncflux.Agent.Schema.{RetPol, MeasurementSch, InfluxSchDb}
use syncflux.Agent.Monitor.{InfluxMonitor}
use syncflux.Agent.Discovery.{Libraries}
use syncflux.Agent.Write.Split.{live}
use syncflux.Agent.Cluster.{HaCluster, ok_state}

pub record Point : Type 0 where
  pub name : String
  pub tags : List (String × String)
  pub fields : List (String × Value)
  pub time : ℤ

pub record Batch : Type 0 where
  pub batch_config : BatchConfig
  pub points : List (Option Point)

abbrev pub points_api : Points Point Batch
points_api = record {
  new_point =
      λ name tags fields t. ok (record { name = name; tags = tags; fields = fields; time = t });
  new_batch = λ c. ok (record { batch_config = c; points = [] });
  add_point = λ b p. record b { points = b.points ++ some p ∷ [] };
  add_points = λ b ps. record b { points = b.points ++ ps };
  slots = λ b. b.points;
  config = λ b. b.batch_config;
}

abbrev pub empty_batch : BatchConfig → Batch
empty_batch c = record { batch_config = c; points = [] }

abbrev made : BatchConfig → Result Batch → Batch
made c (ok b) = b
made c (err e) = empty_batch c

pub points_laws : PointsLaws points_api
points_laws = record {
  slots-new_batch = λ c b e. sym (ap (λ r. (made c r).points) e);
  config-new_batch = λ c b e. sym (ap (λ r. (made c r).batch_config) e);
  slots-add_points = λ b ps. refl;
  slots-add_point = λ b p. refl;
  config-add_point = λ b p. refl;
  config-add_points = λ b ps. refl;
}

pub record World : Type 0 where
  pub writes : ℕ
  pub stored : List (Bool × BatchConfig × Option Point)
  pub sent : List String

abbrev pub world : World
world = record { writes = 0; stored = []; sent = [] }

abbrev pub series : List (List Value) → Response
series rows = record {
  results =
      (record { name = "cpu"; tags = []; columns = "time" ∷ "v" ∷ []; values = rows } ∷ []) ∷ [];
  error = none;
}

abbrev pub one_point : Response
one_point = series ((number "10" ∷ number "3" ∷ []) ∷ [])

-- The slots of a batch, with the connection and the target that they are written to.
abbrev pub placed :
    Bool → BatchConfig → List (Option Point) → List (Bool × BatchConfig × Option Point)
placed c config ps = map (λ o. (c, config, o)) ps

abbrev pub reply : String → Response
reply cmd =
    if str_eq cmd "show databases"
    then series ((text "db1" ∷ []) ∷ [])
    else if str_eq cmd "show retention policies on \"db1\""
    then series ((text "autogen" ∷ text "0s" ∷ text "168h" ∷ number "1" ∷ bool true ∷ []) ∷ [])
    else if str_eq cmd "show measurements"
    then series ((text "cpu" ∷ []) ∷ [])
    else if str_eq cmd "show field keys from \"cpu\""
    then series ((text "v" ∷ text "integer" ∷ []) ∷ [])
    else one_point

abbrev pub refused : Error
refused = external "refused"

abbrev pub client : Client Bool World Batch
client = record {
  new_http_client = λ info w. (ok true, w);
  ping = λ c timeout w. (if c then ok (pos 5, "1.7") else err refused, w);
  query = λ c q w. (
    if c then answered (reply q.command) else failed none refused,
    record w { sent = w.sent ++ q.command ∷ [] },
  );
  write = λ c b w. (
    if c then none else some refused,
    record w {
      writes = w.writes + 1;
      stored = if c then w.stored ++ placed c b.batch_config b.points else w.stored;
    },
  );
  close = λ c w. w;
}

abbrev pub parse_float : String → ℕ
parse_float _ = 0

abbrev pub libraries : Libraries
libraries = record {
  compile = λ filter. ok (λ name. true);
  parse_duration = λ d. some (pos 0);
  fmt = λ v. "";
}

abbrev pub clock : World → ℤ
clock w = pos 5_000_000_000_000

abbrev pub general : GeneralConfig
general = record {
  instance_id = "";
  log_dir = "";
  home_dir = "";
  data_dir = "";
  log_level = "";
  sync_mode = "";
  check_interval = pos 10_000_000_000;
  min_sync_interval = pos 20_000_000_000;
  master_db = "m";
  slave_db = "s";
  initial_replication = "none";
  monitor_retry_interval = pos 0;
  data_chunk_duration = pos 3_600_000_000_000;
  max_retention_interval = pos 8_760_000_000_000_000;
  rw_max_retries = pos 3;
  rw_retry_delay = pos 0;
  num_workers = pos 4;
  max_points_on_single_write = pos 2;
}

abbrev pub database : String → InfluxDb
database name = record {
  release = "";
  name = name;
  location = "";
  admin_user = "";
  admin_passwd = "";
  timeout = pos 0;
}

abbrev pub monitor_of : String → Bool → InfluxMonitor Bool
monitor_of name up = record {
  cfg = database name;
  check_interval = pos 10_000_000_000;
  last_ok = pos 4_000_000_000_000;
  status_ok = up;
  version = "";
  ping_duration = pos 0;
  cli = some up;
  lastcli = some true;
}

abbrev pub cpu : String × MeasurementSch
cpu = ("cpu", record { name = "cpu"; fields = ("v", record { name = "v"; type = "integer" }) ∷ [] })

abbrev pub policy : RetPol
policy = record {
  name = "autogen";
  duration = pos 0;
  shard_group_duration = pos 604_800_000_000_000;
  n_replicas = pos 1;
  def = true;
  measurements = cpu ∷ [];
}

abbrev pub entry : InfluxSchDb
entry = record {
  name = "db1";
  new_name = "db1";
  def_rp = "autogen";
  new_def_rp = "kept";
  rps = policy ∷ [];
}

abbrev pub cluster : HaCluster Bool
cluster = record {
  master = monitor_of "m" true;
  slave = monitor_of "s" true;
  check_interval = pos 20_000_000_000;
  cluster_state = ok_state;
  slave_state_ok = true;
  slave_last_ok = pos 4_000_000_000_000;
  slave_check_duration = pos 0;
  master_state_ok = true;
  master_last_ok = pos 4_000_000_000_000;
  master_check_duration = pos 0;
  cluster_num_recovers = 0;
  cluster_last_recover_duration = pos 0;
  schema = [];
  chunk_duration = pos 3_600_000_000_000;
  max_retention_interval = pos 8_760_000_000_000_000;
}

-- A point that the server keeps behind a connection, in a database and a retention policy.
abbrev pub Has : Placed Bool Point → List (Bool × BatchConfig × Option Point) → Type 0
Has p [] = ⊥
Has (c, config, p) (x ∷ xs) = (x ≡ (c, config, some p)) ⊎ Has (c, config, p) xs

abbrev pub Stored : World → Placed Bool Point → Type 0
Stored w p = Has p w.stored

pub Has-append_left :
    (p : Placed Bool Point) (xs ys : List (Bool × BatchConfig × Option Point))
    → Has p xs
    → Has p (xs ++ ys)
Has-append_left p [] ys h = elim h [ ]
Has-append_left p (x ∷ xs) ys (inl e) = inl e
Has-append_left p (x ∷ xs) ys (inr h) = inr (Has-append_left p xs ys h)

pub Has-append_right :
    (p : Placed Bool Point) (xs ys : List (Bool × BatchConfig × Option Point))
    → Has p ys
    → Has p (xs ++ ys)
Has-append_right p [] ys h = h
Has-append_right p (x ∷ xs) ys h = inr (Has-append_right p xs ys h)

pub Has-live :
    (c : Bool) (config : BatchConfig) (ps : List (Option Point))
    → All (λ p. Has (c, config, p) (placed c config ps)) (live ps)
Has-live c config [] = tt
Has-live c config (none ∷ ps) = All-mono (λ p h. inr h) (live ps) (Has-live c config ps)
Has-live c config (some p ∷ ps) =
    (inl refl, All-mono (λ q h. inr h) (live ps) (Has-live c config ps))
