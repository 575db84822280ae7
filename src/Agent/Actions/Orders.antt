-- ===== src/Agent/Actions/Orders.antt =====
-- What the actions do, and in which order.
use syncflux.Prelude.{
  arith, ℕ, ◌≡◌, refl, ap, ◌∙◌, String, some, List, map, eq_iff, ◌≢◌, true, false,
}
use syncflux.Agent.Replicate.{replicate_data, replicate_data_full}
use syncflux.Go.{Action, ◌>>◌, pure, ret, Error, ok, err}
use syncflux.Go.Time.{Time}
use syncflux.Config.{GeneralConfig}
use syncflux.Influx.{Points, Client}
use syncflux.Agent.Schema.{InfluxSchDb}
use syncflux.Agent.Discovery.{Libraries}
use syncflux.Agent.Cluster.{HaCluster}
use syncflux.Agent.Replicate.Sent.{send_all, schema_commands, replicate_schema_lem}
use syncflux.Agent.Actions.{
  Selection, Span, discover, selected, copy_span, everything, create_schema, repl_sch, sch_copy,
  copy, replicate_initially, ha_monitor_start,
}
use syncflux.Agent.Actions.Schemas.{renamed_entry, renamed-eq-map}

module _ {P B C W : Type 0} (parse_float : String → ℕ) (api : Points P B) (client : Client C W B)
    (general : GeneralConfig) (clock : W → Time) (libraries : Libraries) where
  -- On a connected slave a schema is created by its commands.
  create_schema_lem :
      (hac : HaCluster C) (schema : List InfluxSchDb) (c : C) (w : W)
      → hac.slave.cli ≡ some c
      → create_schema parse_float api client general clock libraries (hac, schema) w
        ≡ (ret hac, send_all client c (schema_commands schema) w)
  unfolding create_schema
  create_schema_lem hac schema c w e = rw e (ground (arith, replicate_schema_lem client c schema w))

  selected_lem :
      (hac : HaCluster C) (s : Selection) (schema : List InfluxSchDb) (w w1 : W)
      → discover parse_float api client general clock libraries hac s.dbs s.rps s.meas w
        ≡ (ret (ok schema), w1)
      → let named = map (renamed_entry s.newdb s.newrp) schema in
        selected parse_float api client general clock libraries hac s w
        ≡ (ret (some (record hac { schema = named }, named)), w1)
  unfolding selected
  selected_lem hac s schema w w1 e = ground (arith, e, renamed-eq-map s.newdb s.newrp schema)

  -- ReplSch, SchCopy and Copy on a schema that is read from the master without an error, with a connected
  -- slave: each gives the schema its new names first; ReplSch sends the commands that create it and does
  -- no more; SchCopy sends the same commands and then copies the data; Copy copies the data and sends no
  -- command. The copy is the same for both, over the span that is asked for.
  pub actions_lem :
      (hac : HaCluster C) (s : Selection) (span : Span) (schema : List InfluxSchDb) (c : C)
      (w w1 : W)
      → discover parse_float api client general clock libraries hac s.dbs s.rps s.meas w
        ≡ (ret (ok schema), w1)
      → hac.slave.cli ≡ some c
      → let named = map (renamed_entry s.newdb s.newrp) schema in
        let hac' = record hac { schema = named } in
        let created = send_all client c (schema_commands named) w1 in
        let copying = copy_span parse_float api client general clock libraries span (hac', named) in
        (repl_sch parse_float api client general clock libraries hac s w ≡ (ret hac', created))
        × (sch_copy parse_float api client general clock libraries hac s span w ≡ copying created)
        × (copy parse_float api client general clock libraries hac s span w ≡ copying w1)
  unfolding repl_sch sch_copy copy
  actions_lem hac s span schema c w w1 e connected =
      let named = map (renamed_entry s.newdb s.newrp) schema in
      let chosen = selected_lem hac s schema w w1 e in
      let creates = create_schema_lem (record hac { schema = named }) named c w1 connected in
      (ground (arith, chosen, creates), ground (arith, chosen, creates), ground (arith, chosen))

  -- Where the schema cannot be read, the three actions leave the cluster as it is and do nothing more.
  pub actions_error :
      (hac : HaCluster C) (s : Selection) (span : Span) (e : Error) (w w1 : W)
      → discover parse_float api client general clock libraries hac s.dbs s.rps s.meas w
        ≡ (ret (err e), w1)
      → (repl_sch parse_float api client general clock libraries hac s w ≡ (ret hac, w1))
        × (sch_copy parse_float api client general clock libraries hac s span w ≡ (ret hac, w1))
        × (copy parse_float api client general clock libraries hac s span w ≡ (ret hac, w1))
  unfolding repl_sch sch_copy copy selected
  actions_error hac s span e w w1 h = (ground arith, ground arith, ground arith)

  -- The switch on the mode.
  initially :
      (on : HaCluster C × List InfluxSchDb)
      → let start = replicate_initially parse_float api client general clock libraries on in
        let creating = create_schema parse_float api client general clock libraries on in
        let copying = copy_span parse_float api client general clock libraries everything on in
        let mode = general.initial_replication in
        (mode ≡ "schema" → start ≡ creating)
        × (mode ≡ "data" → start ≡ copying)
        × (mode ≡ "both" → start ≡ (creating >> copying))
        × (mode ≢ "schema" → mode ≢ "data" → mode ≢ "both" → start ≡ pure on.0)
  unfolding replicate_initially
  initially on =
      let mode = general.initial_replication in
      let is_schema = eq_iff mode "schema" in
      let is_data = eq_iff mode "data" in
      let is_both = eq_iff mode "both" in
      (
        λ m. rw m refl,
        λ m. rw m refl,
        λ m. rw m refl,
        λ m n o. ground (arith, is_schema, is_data, is_both),
      )

  discovered :
      (hac : HaCluster C) (schema : List InfluxSchDb) (w w1 : W)
      → discover parse_float api client general clock libraries hac "" "" "" w
        ≡ (ret (ok schema), w1)
      → ha_monitor_start parse_float api client general clock libraries hac w
        ≡ replicate_initially parse_float api client general clock libraries
            (record hac { schema = schema }, schema)
            w1
  unfolding ha_monitor_start
  discovered hac schema w w1 e = ground (arith, e)

  -- `if full`: a full copy is ReplicateDataFull, another one ReplicateData between the two instants.
  pub copy_span_full :
      (span : Span) (hac : HaCluster C) (schema : List InfluxSchDb)
      → span.full ≡ true
      → copy_span parse_float api client general clock libraries span (hac, schema) ≡ (
          replicate_data_full parse_float api client general clock hac.chunk_duration
            hac.max_retention_interval hac.master hac.slave schema
          >> pure hac)
  unfolding copy_span
  copy_span_full span hac schema e = rw e refl

  pub copy_span_part :
      (span : Span) (hac : HaCluster C) (schema : List InfluxSchDb)
      → span.full ≡ false
      → copy_span parse_float api client general clock libraries span (hac, schema) ≡ (
          replicate_data parse_float api client general clock hac.chunk_duration
            hac.max_retention_interval hac.master hac.slave schema span.start span.end
          >> pure hac)
  unfolding copy_span
  copy_span_part span hac schema e = rw e refl

  -- HAMonitorStart on a schema that is read from the master without an error, with a connected slave:
  -- before it starts to monitor, the mode `schema` sends the commands that create the schema on the slave,
  -- `data` runs ReplicateDataFull from the master to the slave on the schema, with the cluster's chunk and retention
  -- limit, `both` does the one and then the other, and any other text does nothing. The cluster has the schema then.
  pub ha_monitor_start_lem :
      (hac : HaCluster C) (schema : List InfluxSchDb) (c : C) (w w1 : W)
      → discover parse_float api client general clock libraries hac "" "" "" w
        ≡ (ret (ok schema), w1)
      → hac.slave.cli ≡ some c
      → let hac' = record hac { schema = schema } in
        let created = send_all client c (schema_commands schema) w1 in
        let copying : Action W (HaCluster C) =
          replicate_data_full parse_float api client general clock hac.chunk_duration
            hac.max_retention_interval hac.master hac.slave schema
          >> pure hac' in
        let started = ha_monitor_start parse_float api client general clock libraries hac w in
        let mode = general.initial_replication in
        (mode ≡ "schema" → started ≡ (ret hac', created))
        × (mode ≡ "data" → started ≡ copying w1)
        × (mode ≡ "both" → started ≡ copying created)
        × (mode ≢ "schema" → mode ≢ "data" → mode ≢ "both" → started ≡ (ret hac', w1))
  ha_monitor_start_lem hac schema c w w1 e connected =
      let creates = create_schema_lem (record hac { schema = schema }) schema c w1 connected in
      let mode = general.initial_replication in
      let on : HaCluster C × List InfluxSchDb = (record hac { schema = schema }, schema) in
      let ran = discovered hac schema w w1 e in
      let copies = copy_span_full everything on.0 schema refl in
      (
        λ m. ran ∙ ap (λ f. f w1) ((initially on).0 m) ∙ creates,
        λ m. ran ∙ ap (λ f. f w1) ((initially on).1 m ∙ copies),
        λ m.
            ran
            ∙ ap (λ f. f w1)
                ((initially on).2 m
                  ∙ ap (λ f. create_schema parse_float api client general clock libraries on >> f)
                      copies)
            ∙ ground (arith, creates),
        λ m n o. ran ∙ ap (λ f. f w1) ((initially on).3 m n o),
      )
