-- ===== src/Agent/Read/Retries.antt =====
-- ReadDB as a whole: the query with its retries, and then the rows.
use syncflux.Prelude.{
  Option-cases, inl, inr, ℕ, ◌-◌, ◌≡◌, ap, ◌∙◌, String, Option, none, some, List, [], map, arith,
  min, length, leb, if◌then◌else◌, All,
}
use syncflux.Go.{Returns, Error, max_retries_reached, ret, ok, err}
use syncflux.Influx.{
  Answer-cases, Query, Response, answered, BatchConfig, Points, PointsLaws, Client,
}
use syncflux.Try.{max_retries, do_retry}
use syncflux.Try.Reference.{
  up_to, relabel, do_retry-repeat, relabel-some, up_to_done, up_to_succeeds, up_to_keeps,
}
use syncflux.Agent.Schema.{Fields}
use syncflux.Agent.Read.{
  query_once, read_query, query_attempt, read_response, read_results, read_db,
}
use syncflux.Agent.Read.Rows.{RowFits, all_rows, points_of, read_results_lem, read_results_returns}

-- The batch that ReadDB fills.
abbrev pub target : String → String → BatchConfig
target ddb drp = record { database = ddb; retention_policy = drp; precision = "ns" }

module _ {P B C W : Type 0} (parse_float : String → ℕ) (api : Points P B) (client : Client C W B)
    (limit : ℕ) (c : C) (sdb srp ddb drp cmd : String) (fieldmap : Fields) (w : W) (b : B)
    (fresh : api.new_batch (target ddb drp) ≡ ok b) where
  abbrev retried : Option Error × (W × Option Response)
  retried =
      up_to (min (limit - 1) (max_retries - 1)) (query_once client c (read_query sdb srp cmd))
        (w, none)

  asked :
      do_retry (query_attempt client limit c (read_query sdb srp cmd)) (w, none)
      ≡ relabel limit retried
  asked = do_retry-repeat limit (query_once client c (read_query sdb srp cmd)) (w, none)

  -- With an answer in hand ReadDB converts its rows.
  read_db_answered :
      (w' : W) (r : Response)
      → retried ≡ (none, (w', some r))
      → read_db parse_float api client limit c sdb srp ddb drp cmd fieldmap w
        ≡ (read_response parse_float api fieldmap b (some r), w')
  unfolding read_db
  read_db_answered w' r done = rw (fresh, read_db) (ground (arith, asked, done))

  -- If one of the attempts at the query gets an answer, and the answer's rows fit the schema, ReadDB
  -- returns no error: its batch is for the target database and retention policy, holds exactly the
  -- points of the rows in their order, and the count is their number.
  pub read_db_lem :
      (laws : PointsLaws api) (w' : W) (r : Response)
      → retried ≡ (none, (w', some r))
      → All (RowFits fieldmap) (all_rows r.results)
      → (ps : List P) × (points_of parse_float api fieldmap (all_rows r.results) ≡ ret ps)
        × (b' : B) × (read_db parse_float api client limit c sdb srp ddb drp cmd fieldmap w
            ≡ (ret (ok (b', length ps)), w'))
        × (api.slots b' ≡ map (λ p. some p) ps)
        × (api.config b' ≡ target ddb drp)
  unfolding read_response
  read_db_lem laws w' r done fits =
      let (ps, made, b', loops, slots, config) =
        read_results_lem parse_float api laws fieldmap r.results b 0 fits in
      (
        ps,
        made,
        b',
        read_db_answered w' r done ∙ ground (arith, loops),
        slots ∙ rw (laws.slots-new_batch _ _ fresh),
        config ∙ laws.config-new_batch _ _ fresh,
      )

  -- If every attempt at the query fails, ReadDB returns an error: the last attempt's, or
  -- `errMaxRetriesReached` if the limit is above ten.
  pub read_db_fails :
      (e : Error)
      → retried.0 ≡ some e
      → read_db parse_float api client limit c sdb srp ddb drp cmd fieldmap w
        ≡ (ret (err (if leb limit max_retries then e else max_retries_reached)), retried.1.0)
  unfolding read_db
  read_db_fails e failed =
      rw (fresh, read_db) (ground (arith, asked, relabel-some limit retried failed))

  -- The world after ReadDB is the one after its queries.
  read_db_world :
      (read_db parse_float api client limit c sdb srp ddb drp cmd fieldmap w).1 ≡ retried.1.0
  unfolding read_db
  read_db_world = rw (fresh, read_db) (ground (arith, asked))

  -- What the queries keep, ReadDB keeps.
  pub read_db_keeps :
      (K : W → Type 0)
      → ((q : Query) (v : W) → K v → K (client.query c q v).1)
      → K w
      → K (read_db parse_float api client limit c sdb srp ddb drp cmd fieldmap w).1
  unfolding query_once
  read_db_keeps K keeps h =
      let q = read_query sdb srp cmd in
      rw read_db_world (
        up_to_keeps (λ s. K s.0) (query_once client c q) (λ s k. ground (arith, keeps q s.0 k)) _
          (w, none) h)

  -- A query that gives no error has an answer, which it keeps.
  query_once_answer :
      (q : Query) (t : W × Option Response)
      → (query_once client c q t).0 ≡ none
      → (r : Response) × ((client.query c q t.0).0 ≡ answered r)
        × ((query_once client c q t).1 ≡ ((client.query c q t.0).1, some r))
  unfolding query_once
  query_once_answer q t h = elim (Answer-cases (client.query c q t.0).0) [
    | inl (r, e) ↦ (r, e, ground arith)
    | inr (r, e, f) ↦ absurd (ground arith)
  ]

  -- Retries that succeed have an answer.
  retried_answer :
      retried.0 ≡ none
      → (v : W) × (v' : W) × (r : Response) × ((client.query c (read_query sdb srp cmd) v).0
          ≡ answered r)
        × (retried ≡ (none, (v', some r)))
  retried_answer done =
      let (t, good, last) =
        up_to_succeeds _ (query_once client c (read_query sdb srp cmd)) (w, none) done in
      let (r, given, kept) = query_once_answer (read_query sdb srp cmd) t good in
      let v = (client.query c (read_query sdb srp cmd) t.0).1 in
      (t.0, v, r, given, ground (arith, done, kept, last))

  -- When ReadDB returns a batch, one of its queries got an answer, and the points of the batch are those
  -- of the answer's rows, in order.
  pub read_db_returns :
      (laws : PointsLaws api) (b' : B) (n : ℕ) (w' : W)
      → read_db parse_float api client limit c sdb srp ddb drp cmd fieldmap w
        ≡ (ret (ok (b', n)), w')
      → (v : W) × (r : Response) × (ps : List P) × ((client.query c (read_query sdb srp cmd) v).0
          ≡ answered r)
        × (points_of parse_float api fieldmap (all_rows r.results) ≡ ret ps)
        × (api.slots b' ≡ map (λ p. some p) ps)
        × (api.config b' ≡ target ddb drp)
  unfolding read_response
  read_db_returns laws b' n w' e = elim (Option-cases retried.0) [
    | inr (x, failed) ↦ absurd (cc (read_db_fails x failed, e))
    | inl done ↦
        let (t, v, r, given, whole) = retried_answer done in
        let answer = read_db_answered v r whole in
        let loops : read_results parse_float api fieldmap r.results (b, 0) ≡ ret (b', n) =
          ground (arith, answer, e) in
        let (ps, made, slots, config) =
          read_results_returns parse_float api laws fieldmap r.results b b' 0 n loops in
        (
          t,
          r,
          ps,
          given,
          made,
          slots ∙ rw (laws.slots-new_batch _ _ fresh),
          config ∙ laws.config-new_batch _ _ fresh,
        )
  ]

  -- ReadDB returns, with a batch or an error, where the rows of any answer to its query fit the schema.
  pub read_db-Returns :
      (laws : PointsLaws api)
      → ((v : W) (r : Response)
          → (client.query c (read_query sdb srp cmd) v).0 ≡ answered r
          → All (RowFits fieldmap) (all_rows r.results))
      → Returns (read_db parse_float api client limit c sdb srp ddb drp cmd fieldmap w).0
  read_db-Returns laws fits = elim (Option-cases retried.0) [
    | inr (e, failed) ↦ (_, ap (λ x. x.0) (read_db_fails e failed))
    | inl done ↦
        let (v, v', r, given, whole) = retried_answer done in
        let (ps, made, b', reads, slots, config) = read_db_lem laws v' r whole (fits v r given) in
        (_, ap (λ x. x.0) reads)
  ]

  -- ReadDB does not look at the error that an answer carries: a query that the server refuses with an
  -- answer of no results counts as a successful read of no points.
  pub read_db_ignores_error :
      (w' : W) (e : Error)
      → client.query c (read_query sdb srp cmd) w
        ≡ (answered (record { results = []; error = some e }), w')
      → read_db parse_float api client limit c sdb srp ddb drp cmd fieldmap w
        ≡ (ret (ok (b, 0)), w')
  unfolding read_response read_results query_once
  read_db_ignores_error w' e h =
      let refused : Response = record { results = []; error = some e } in
      let once : query_once client c (read_query sdb srp cmd) (w, none)
          ≡ (none, (w', some refused)) =
        ground arith in
      let done = up_to_done _ (query_once client c (read_query sdb srp cmd)) (w, none) in
      read_db_answered w' refused (done (ap (λ x. x.0) once) ∙ ap (λ x. (none, x.1)) once)
