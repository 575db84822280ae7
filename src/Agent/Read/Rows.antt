-- ===== src/Agent/Read/Rows.antt =====
-- What ReadDB makes of an answer, row by row.
use syncflux.Prelude.{
  ℕ, ◌+◌, ◌≡◌, ◌≢◌, inl, inr, refl, ap, sym, ◌∙◌, String, Option, none, some, List, [], ◌∷◌, ◌++◌,
  map, arith, append-nil, append_assoc, length, get_elem?, All,
}
use syncflux.Go.{Outcome, Outcome-cases, ret, panic}
use syncflux.Influx.{Value, null, number, Series, Points, PointsLaws}
use syncflux.Agent.Schema.{FieldSch, Fields, lookup}
use syncflux.Agent.Read.{set_cell, fields_from, point_of, read_rows, read_series, read_results}

-- The rows of an answer, each with its series, in order.
abbrev series_rows : Series → List (List Value) → List (Series × List Value)
series_rows ser [] = []
series_rows ser (v ∷ values) = (ser, v) ∷ series_rows ser values

abbrev result_rows : List Series → List (Series × List Value)
result_rows [] = []
result_rows (ser ∷ series) = series_rows ser ser.values ++ result_rows series

abbrev pub all_rows : List (List Series) → List (Series × List Value)
all_rows [] = []
all_rows (res ∷ results) = result_rows res ++ all_rows results

-- A cell that can be converted: it is nil, or its column has a name, which the schema knows if the
-- cell is a number.
abbrev pub CellFits : Fields → Option String → Value → Type 0
CellFits fieldmap column null = Unit
CellFits fieldmap column (number vt) =
    (c : String) × (tp : FieldSch) × (column ≡ some c) × (lookup c fieldmap ≡ some tp)
CellFits fieldmap column val = (c : String) × (column ≡ some c)

abbrev CellsFit : Fields → List String → ℕ → List Value → Type 0
CellsFit fieldmap columns i [] = Unit
CellsFit fieldmap columns i (val ∷ v) =
    CellFits fieldmap (get_elem? columns i) val × CellsFit fieldmap columns (i + 1) v

-- A row that ReadDB converts without a panic: it has a timestamp, and its other cells fit.
abbrev pub RowFits : Fields → Series × List Value → Type 0
RowFits fieldmap (ser, []) = ⊥
RowFits fieldmap (ser, t ∷ v) = CellsFit fieldmap ser.columns 1 v

module _ (parse_float : String → ℕ) where
  set_cell-ne-panic :
      (fieldmap : Fields) (column : Option String) (val : Value) (field : List (String × Value))
      → CellFits fieldmap column val
      → set_cell parse_float fieldmap column val field ≢ panic
  unfolding set_cell
  set_cell-ne-panic fieldmap column null field h = ground arith
  set_cell-ne-panic fieldmap column (number vt) field h = ground arith
  set_cell-ne-panic fieldmap column _ field h = ground arith

  fields_from-ne-panic :
      (fieldmap : Fields) (columns : List String) (i : ℕ) (v : List Value)
      (field : List (String × Value))
      → CellsFit fieldmap columns i v
      → fields_from parse_float fieldmap columns i v field ≢ panic
  unfolding fields_from
  fields_from-ne-panic fieldmap columns i [] field h = ground arith
  fields_from-ne-panic fieldmap columns i (val ∷ v) field h =
      elim (Outcome-cases (set_cell parse_float fieldmap (get_elem? columns i) val field)) [
        | inl e ↦ absurd (set_cell-ne-panic fieldmap (get_elem? columns i) val field h.0 e)
        | inr (f, e) ↦ rw (e, fields_from) (fields_from-ne-panic fieldmap columns (i + 1) v f h.1)
      ]

  module _ {P B : Type 0} (api : Points P B) where
    point_of-ne-panic :
        (fieldmap : Fields) (ser : Series) (v : List Value)
        → RowFits fieldmap (ser, v)
        → point_of parse_float api fieldmap ser v ≢ panic
    unfolding point_of
    point_of-ne-panic fieldmap ser [] h = absurd h
    point_of-ne-panic fieldmap ser (t ∷ v) h =
        ground (arith, fields_from-ne-panic fieldmap ser.columns 1 v [] h)

    -- The points of some rows, made one after the other.
    unfoldable pub points_of : Fields → List (Series × List Value) → Outcome (List P)
    points_of fieldmap [] = ret []
    points_of fieldmap ((ser, v) ∷ rows) = elim (point_of parse_float api fieldmap ser v) [
      | panic ↦ panic
      | ret p ↦ elim (points_of fieldmap rows) [
        | panic ↦ panic
        | ret ps ↦ elim p [ none ↦ ret ps | some q ↦ ret (q ∷ ps) ]
      ]
    ]

    pub points_of-ne-panic :
        (fieldmap : Fields) (rows : List (Series × List Value))
        → All (RowFits fieldmap) rows
        → points_of fieldmap rows ≢ panic
    unfolding points_of
    points_of-ne-panic fieldmap [] h = ground arith
    points_of-ne-panic fieldmap ((ser, v) ∷ rows) h =
        ground (arith, point_of-ne-panic fieldmap ser v h.0, points_of-ne-panic fieldmap rows h.1)

    -- Points of two lists of rows.
    abbrev join : Outcome (List P) → Outcome (List P) → Outcome (List P)
    join panic o = panic
    join (ret ps) panic = panic
    join (ret ps) (ret qs) = ret (ps ++ qs)

    points_of-append :
        (fieldmap : Fields) (xs ys : List (Series × List Value))
        → points_of fieldmap (xs ++ ys) ≡ join (points_of fieldmap xs) (points_of fieldmap ys)
    unfolding points_of
    points_of-append fieldmap [] ys = ground arith
    points_of-append fieldmap ((ser, v) ∷ xs) ys = ground (arith, points_of-append fieldmap xs ys)

    -- Points added to a batch one by one, and counted.
    unfoldable pub add_each : List P → B × ℕ → B × ℕ
    add_each [] acc = acc
    add_each (p ∷ ps) (b, n) = add_each ps (api.add_point b p, n + 1)

    abbrev pub add_all : Outcome (List P) → B × ℕ → Outcome (B × ℕ)
    add_all panic acc = panic
    add_all (ret ps) acc = ret (add_each ps acc)

    add_each-append :
        (ps qs : List P) (acc : B × ℕ) → add_each (ps ++ qs) acc ≡ add_each qs (add_each ps acc)
    unfolding add_each
    add_each-append [] qs acc = refl
    add_each-append (p ∷ ps) qs (b, n) = add_each-append ps qs (api.add_point b p, n + 1)

    add_all-join :
        (o o' : Outcome (List P)) (acc : B × ℕ)
        → add_all (join o o') acc
          ≡ (elim (add_all o acc) [ panic ↦ panic | ret acc' ↦ add_all o' acc' ])
    add_all-join panic o' acc = refl
    add_all-join (ret ps) panic acc = refl
    add_all-join (ret ps) (ret qs) acc = ap ret (add_each-append ps qs acc)

    read_rows-eq-add_all :
        (fieldmap : Fields) (ser : Series) (values : List (List Value)) (b : B) (n : ℕ)
        → read_rows parse_float api fieldmap ser values (b, n)
          ≡ add_all (points_of fieldmap (series_rows ser values)) (b, n)
    unfolding points_of read_rows add_each
    read_rows-eq-add_all fieldmap ser [] b n = refl
    read_rows-eq-add_all fieldmap ser (v ∷ values) b n =
        elim (Outcome-cases (point_of parse_float api fieldmap ser v)) [
          | inl e ↦ ground arith
          | inr (none, e) ↦ ground (arith, read_rows-eq-add_all fieldmap ser values b n)
          | inr (some p, e) ↦
              ground (arith, read_rows-eq-add_all fieldmap ser values (api.add_point b p) (n + 1))
        ]

    read_series-eq-add_all :
        (fieldmap : Fields) (series : List Series) (acc : B × ℕ)
        → read_series parse_float api fieldmap series acc
          ≡ add_all (points_of fieldmap (result_rows series)) acc
    unfolding read_series
    read_series-eq-add_all fieldmap [] acc = unfold points_of add_each in refl
    read_series-eq-add_all fieldmap (ser ∷ series) (b, n) =
        rw (points_of-append, add_all-join, ← read_rows-eq-add_all)
          (elim (Outcome-cases (read_rows parse_float api fieldmap ser ser.values (b, n))) [
            | inl e ↦ ground arith
            | inr (acc', e) ↦ ground (arith, read_series-eq-add_all fieldmap series acc')
          ])

    read_results-eq-add_all :
        (fieldmap : Fields) (results : List (List Series)) (acc : B × ℕ)
        → read_results parse_float api fieldmap results acc
          ≡ add_all (points_of fieldmap (all_rows results)) acc
    unfolding read_results
    read_results-eq-add_all fieldmap [] acc = unfold points_of add_each in refl
    read_results-eq-add_all fieldmap (res ∷ results) acc =
        rw (points_of-append, add_all-join, ← read_series-eq-add_all)
          (elim (Outcome-cases (read_series parse_float api fieldmap res acc)) [
            | inl e ↦ ground arith
            | inr (acc', e) ↦ ground (arith, read_results-eq-add_all fieldmap results acc')
          ])

    module _ (laws : PointsLaws api) where
      slots-add_each :
          (ps : List P) (b : B) (n : ℕ)
          → api.slots (add_each ps (b, n)).0 ≡ api.slots b ++ map (λ p. some p) ps
      unfolding add_each
      slots-add_each [] b n = sym (append-nil (api.slots b))
      slots-add_each (p ∷ ps) b n =
          slots-add_each ps (api.add_point b p) (n + 1)
          ∙ rw laws.slots-add_point (append_assoc (api.slots b) (some p ∷ []) _)

      config-add_each :
          (ps : List P) (b : B) (n : ℕ) → api.config (add_each ps (b, n)).0 ≡ api.config b
      unfolding add_each
      config-add_each [] b n = refl
      config-add_each (p ∷ ps) b n =
          config-add_each ps (api.add_point b p) (n + 1) ∙ laws.config-add_point b p

      count-add_each : (ps : List P) (b : B) (n : ℕ) → (add_each ps (b, n)).1 ≡ n + length ps
      unfolding add_each
      count-add_each [] b n = omega arith
      count-add_each (p ∷ ps) b n = count-add_each ps (api.add_point b p) (n + 1) ∙ omega arith

      -- If every row of an answer fits, ReadDB's loops end without a panic, and the batch has exactly the
      -- points that the rows make, one after the other; the count is their number, and the
      -- batch's database, retention policy and precision are unchanged.
      pub read_results_lem :
          (fieldmap : Fields) (results : List (List Series)) (b : B) (n : ℕ)
          → All (RowFits fieldmap) (all_rows results)
          → (ps : List P) × (points_of fieldmap (all_rows results) ≡ ret ps)
            × (b' : B) × (read_results parse_float api fieldmap results (b, n)
                ≡ ret (b', n + length ps))
            × (api.slots b' ≡ api.slots b ++ map (λ p. some p) ps)
            × (api.config b' ≡ api.config b)
      read_results_lem fieldmap results b n h =
          elim (Outcome-cases (points_of fieldmap (all_rows results))) [
            | inl e ↦ absurd (points_of-ne-panic fieldmap (all_rows results) h e)
            | inr (ps, e) ↦ (
              ps,
              e,
              (add_each ps (b, n)).0,
              read_results-eq-add_all fieldmap results (b, n)
                  ∙ ground (arith, count-add_each ps b n),
              slots-add_each ps b n,
              config-add_each ps b n,
            )
          ]

      -- The other way round: loops that end have made points of all the rows.
      pub read_results_returns :
          (fieldmap : Fields) (results : List (List Series)) (b b' : B) (n n' : ℕ)
          → read_results parse_float api fieldmap results (b, n) ≡ ret (b', n')
          → (ps : List P) × (points_of fieldmap (all_rows results) ≡ ret ps)
            × (api.slots b' ≡ api.slots b ++ map (λ p. some p) ps)
            × (api.config b' ≡ api.config b)
      read_results_returns fieldmap results b b' n n' e =
          let added = sym (read_results-eq-add_all fieldmap results (b, n)) ∙ e in
          elim (Outcome-cases (points_of fieldmap (all_rows results))) [
            | inl x ↦ absurd (ground arith)
            | inr (ps, x) ↦
                let same : (add_each ps (b, n)).0 ≡ b' = ground arith in
                (ps, x, rw (← same) (slots-add_each ps b n), rw (← same) (config-add_each ps b n))
          ]
