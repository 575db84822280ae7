-- ===== src/Agent/Actions/Schemas.antt =====
-- The new names that the actions give to a schema.
use syncflux.Prelude.{arith, ◌≡◌, String, List, [], ◌∷◌, map}
use syncflux.Agent.Schema.{InfluxSchDb}
use syncflux.Agent.Startup.{choose}
use syncflux.Agent.Actions.{rename_db, rename_rp}

-- An entry under the new names, where a name that is empty stands for the old one.
abbrev pub renamed_entry : String → String → InfluxSchDb → InfluxSchDb
renamed_entry newdb newrp db = record db {
  new_name = choose newdb db.new_name;
  new_def_rp = choose newrp db.new_def_rp;
}

pub renamed-eq-map :
    (newdb newrp : String) (schema : List InfluxSchDb)
    → rename_rp newrp (rename_db newdb schema) ≡ map (renamed_entry newdb newrp) schema
unfolding rename_db rename_rp choose
renamed-eq-map newdb newrp [] = ground arith
renamed-eq-map newdb newrp (db ∷ schema) = ground (arith, renamed-eq-map newdb newrp schema)
