-- ===== src/Agent/Schema.antt =====
-- The descriptions of databases that the agent passes around: RetPol of pkg/agent/client.go,
-- and the schema types of pkg/agent/hacluster.go. A Go map is a list of its entries, and a pointer that
-- the program never leaves nil is the value.
use syncflux.Prelude.{String, ℤ, Bool, List, [], ◌∷◌, Option, none, some, str_eq, if◌then◌else◌}
use syncflux.Go.Time.{Duration}

pub record FieldSch : Type 0 where
  pub name : String
  pub type : String

abbrev pub Fields : Type 0
Fields = List (String × FieldSch)

pub record MeasurementSch : Type 0 where
  pub name : String
  pub fields : Fields

pub record RetPol : Type 0 where
  pub name : String
  pub duration : Duration
  pub shard_group_duration : Duration
  pub n_replicas : ℤ
  pub def : Bool
  pub measurements : List (String × MeasurementSch)

pub record InfluxSchDb : Type 0 where
  pub name : String
  pub new_name : String
  pub def_rp : String
  pub new_def_rp : String
  pub rps : List RetPol

-- A map read, and a map write.
module _ {V : Type 0} where
  unfoldable pub lookup : String → List (String × V) → Option V
  lookup k [] = none
  lookup k ((j, v) ∷ m) = if str_eq j k then some v else lookup k m

  unfoldable pub insert : String → V → List (String × V) → List (String × V)
  insert k v [] = (k, v) ∷ []
  insert k v ((j, w) ∷ m) = if str_eq j k then (k, v) ∷ m else (j, w) ∷ insert k v m
