-- ===== src/Agent/Replicate/Sent.antt =====
-- What ReplicateSchema sends to the slave.
use syncflux.Prelude.{
  arith, ◌≡◌, refl, String, Option, none, some, List, [], ◌∷◌, ◌++◌, str_eq, if◌then◌else◌,
  Bool-cases, inl, inr,
}
use syncflux.Go.{ret}
use syncflux.Influx.{Client}
use syncflux.Agent.Schema.{RetPol, InfluxSchDb}
use syncflux.Agent.Statements.{
  command_query, create_db_command, create_rp_command, set_default_rp_command,
}
use syncflux.Agent.Commands.{create_db, create_rp, set_default_rp}
use syncflux.Agent.Replicate.{zero_ret_pol, default_rp_of, replicate_policies, replicate_schema}

-- The commands for the policies of a database.
abbrev pub policy_commands : InfluxSchDb → RetPol → List RetPol → List String
policy_commands db default_rp [] = []
policy_commands db default_rp (rp ∷ rps) =
    (if rp.def
      then create_rp_command db.new_name default_rp
        ∷ set_default_rp_command db.new_name default_rp
        ∷ []
      else create_rp_command db.new_name rp ∷ [])
    ++ policy_commands db default_rp rps

-- The command that creates a database.
abbrev pub create_commands : String → RetPol → List String
create_commands db rp = if str_eq db "_internal" then [] else create_db_command db rp ∷ []

-- The first default policy of a database, if it has one.
abbrev pub first_default : List RetPol → Option RetPol
first_default [] = none
first_default (rp ∷ rps) = if rp.def then some rp else first_default rps

-- The default policy on the slave: the first default one, with the new name; without one, no policy's values.
abbrev pub new_default : String → List RetPol → RetPol
new_default new_name rps = elim (first_default rps) [
  | some rp ↦ record rp { name = new_name }
  | none ↦ zero_ret_pol
]

default_rp_of-new_default :
    (new_name : String) (rps : List RetPol) → default_rp_of new_name rps ≡ new_default new_name rps
unfolding default_rp_of
default_rp_of-new_default new_name [] = refl
default_rp_of-new_default new_name (rp ∷ rps) = elim (Bool-cases rp.def) [
  | inl e ↦ rw e refl
  | inr e ↦ rw e (default_rp_of-new_default new_name rps)
]

-- The commands for a schema: each database first, unless it is the server's own, and then its policies.
abbrev pub schema_commands : List InfluxSchDb → List String
schema_commands [] = []
schema_commands (db ∷ schema) =
    let default_rp = new_default db.new_def_rp db.rps in
    create_commands db.new_name default_rp
    ++ policy_commands db default_rp db.rps
    ++ schema_commands schema

module _ {B C W : Type 0} (client : Client C W B) (c : C) where
  -- The world after some commands, sent in order whatever their answers are.
  unfoldable pub send_all : List String → W → W
  send_all [] w = w
  send_all (cmd ∷ cmds) w = send_all cmds (client.query c (command_query cmd) w).1

  send_all-append :
      (xs ys : List String) (w : W) → send_all (xs ++ ys) w ≡ send_all ys (send_all xs w)
  unfolding send_all
  send_all-append [] ys w = refl
  send_all-append (x ∷ xs) ys w = send_all-append xs ys _

  replicate_policies_lem :
      (db : InfluxSchDb) (default_rp : RetPol) (rps : List RetPol) (w : W)
      → replicate_policies client (some c) db default_rp rps w
        ≡ (ret none, send_all (policy_commands db default_rp rps) w)
  unfolding replicate_policies create_rp set_default_rp send_all
  replicate_policies_lem db default_rp [] w = refl
  replicate_policies_lem db default_rp (rp ∷ rps) w = elim (Bool-cases rp.def) [
    | inl e ↦ rw e (replicate_policies_lem db default_rp rps _)
    | inr e ↦ rw e (replicate_policies_lem db default_rp rps _)
  ]

  create_db_sent :
      (db : String) (rp : RetPol) (w : W)
      → (create_db client c db rp w).1 ≡ send_all (create_commands db rp) w
  unfolding create_db send_all
  create_db_sent db rp w = ground arith

  -- On a connected slave, ReplicateSchema sends exactly the schema's commands, in order and whatever the
  -- answers are, and returns no error: for each database its creation, unless it is the server's own, and
  -- for each of its policies, the default one under its new name, its creation, followed for the default
  -- one by the command that makes it the default.
  pub replicate_schema_lem :
      (schema : List InfluxSchDb) (w : W)
      → replicate_schema client (some c) schema w ≡ (ret none, send_all (schema_commands schema) w)
  unfolding replicate_schema create_db send_all
  replicate_schema_lem [] w = refl
  replicate_schema_lem (db ∷ schema) w =
      let default_rp = new_default db.new_def_rp db.rps in
      let policies = policy_commands db default_rp db.rps in
      let later = schema_commands schema in
      let w1 = (create_db client c db.new_name default_rp w).1 in
      ground (
        arith,
        default_rp_of-new_default db.new_def_rp db.rps,
        create_db_sent db.new_name default_rp w,
        replicate_policies_lem db default_rp db.rps w1,
        replicate_schema_lem schema (send_all policies w1),
        send_all-append (create_commands db.new_name default_rp) (policies ++ later) w,
        send_all-append policies later w1,
      )
