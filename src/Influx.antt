-- ===== src/Influx.antt =====
-- The InfluxDB client library (github.com/influxdata/influxdb1-client/v2), which the program calls
-- and does not contain: its plain data, and its operations as records of functions that the
-- definitions take as parameters.
use syncflux.Prelude.{
  refl, ◌⊎◌, inl, inr, ℕ, ℤ, String, Bool, Option, some, ◌≡◌, List, [], ◌++◌, ◌∷◌,
}
use syncflux.Go.{Error, Result, ok}

-- client.Query
pub record Query : Type 0 where
  pub command : String
  pub database : String
  pub retention_policy : String
  pub precision : String
  pub chunked : Bool
  pub chunk_size : ℕ

-- The dynamic types of an `interface{}` in a result row. A float64 is its bit pattern, and
-- `other` stands for a type that the program does not expect.
pub data Value : Type 0 where
  null : Value
  number : String → Value  -- json.Number
  text : String → Value
  bool : Bool → Value
  int64 : ℤ → Value
  uint64 : ℕ → Value
  float64 : ℕ → Value
  other : ℕ → Value

-- models.Row
pub record Series : Type 0 where
  pub name : String
  pub tags : List (String × String)
  pub columns : List String
  pub values : List (List Value)

-- client.Response: `Results`, of which the program reads the series, and `Error()`.
pub record Response : Type 0 where
  pub results : List (List Series)
  pub error : Option Error

-- The two results of `Client.Query`. A response beside an error is not looked at by the library's
-- documentation, and may be nil.
pub data Answer : Type 0 where
  answered : Response → Answer
  failed : Option Response → Error → Answer

pub Answer-cases :
    (a : Answer)
    → ((r : Response) × (a ≡ answered r)) ⊎ ((r : Option Response) × (e : Error) × (a ≡ failed r e))
Answer-cases (answered r) = inl (r, refl)
Answer-cases (failed r e) = inr (r, e, refl)

pub record BatchConfig : Type 0 where
  pub database : String
  pub retention_policy : String
  pub precision : String

-- Where a point is: behind a connection, in the database and retention policy of its batch.
abbrev pub Placed : Type 0 → Type 0 → Type 0
Placed C P = C × BatchConfig × P

-- client.HTTPConfig
pub record HttpConfig : Type 0 where
  pub addr : String
  pub username : String
  pub password : String
  pub user_agent : String
  pub timeout : ℤ

-- client.Point and client.BatchPoints. A batch's slots are pointers, which may be nil.
pub record Points (P B : Type 0) : Type 0 where
  pub new_point : String → List (String × String) → List (String × Value) → ℤ → Result P
  pub new_batch : BatchConfig → Result B
  pub add_point : B → P → B
  pub add_points : B → List (Option P) → B
  pub slots : B → List (Option P)
  pub config : B → BatchConfig

-- What the library documents of a batch: it starts empty, keeps its configuration and appends.
pub record PointsLaws {P B : Type 0} (api : Points P B) : Type 0 where
  pub slots-new_batch : (c : BatchConfig) (b : B) → api.new_batch c ≡ ok b → api.slots b ≡ []
  pub config-new_batch : (c : BatchConfig) (b : B) → api.new_batch c ≡ ok b → api.config b ≡ c
  pub slots-add_points :
      (b : B) (ps : List (Option P)) → api.slots (api.add_points b ps) ≡ api.slots b ++ ps
  pub slots-add_point : (b : B) (p : P) → api.slots (api.add_point b p) ≡ api.slots b ++ some p ∷ []
  pub config-add_point : (b : B) (p : P) → api.config (api.add_point b p) ≡ api.config b
  pub config-add_points :
      (b : B) (ps : List (Option P)) → api.config (api.add_points b ps) ≡ api.config b

-- client.Client, over the connections `C` and the outside world `W`.
pub record Client (C W B : Type 0) : Type 0 where
  pub new_http_client : HttpConfig → W → Result C × W
  pub ping : C → ℤ → W → Result (ℤ × String) × W
  pub query : C → Query → W → Answer × W
  pub write : C → B → W → Option Error × W
  pub close : C → W → W
