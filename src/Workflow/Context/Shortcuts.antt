-- ===== src/Workflow/Context/Shortcuts.antt =====
-- The shortcuts of a result in internal/workflow/context.go.
use sqlproxy.Prelude.{
  ℕ, ◌≡◌, refl, arith, List, [], ◌∷◌, codes, Bool, true, false, not, some, length, ap, ◌∙◌, ◌⊎◌,
  text_eq, text_eq_other, inl, inr, Dict, lookup, lookup-insert,
}
use sqlproxy.Params.Values.{ValueLibrary, nil, boolean, array}
use sqlproxy.Params.{Any}
use sqlproxy.Workflow.Context.{
  data_of, first_row, object_of, row_items, natural, add_convenience_shortcuts, add_query,
  add_http_call, add_block, common_fields, query_fields, http_call_fields, step_result_to_map,
}
use sqlproxy.Workflow.Context.Results.{Row, StepResult}

apart :
    (text_eq (codes "query") (codes "httpcall") ≡ false)
    × (text_eq (codes "httpcall") (codes "query") ≡ false)
    × (text_eq (codes "query") (codes "block") ≡ false)
    × (text_eq (codes "httpcall") (codes "block") ≡ false)
unfolding text_eq
apart = (refl, refl, refl, refl)

module _ (lib : ValueLibrary) where
  -- What the shortcuts say of a list of rows.
  abbrev pub IsSummary : List (Row lib) → Dict (Any lib) → Type 0
  IsSummary [] m =
      (lookup (codes "row") m ≡ some nil)
      × (lookup (codes "found") m ≡ some (boolean false))
      × (lookup (codes "empty") m ≡ some (boolean true))
      × (lookup (codes "one") m ≡ some (boolean false))
      × (lookup (codes "many") m ≡ some (boolean false))
  IsSummary (r ∷ rs) m =
      (lookup (codes "row") m ≡ some (object_of lib r))
      × (lookup (codes "found") m ≡ some (boolean true))
      × (lookup (codes "empty") m ≡ some (boolean false))
      × (lookup (codes "one") m ≡ some (boolean (is_single rs)))
      × (lookup (codes "many") m ≡ some (boolean (not (is_single rs))))
    where
      is_single : List (Row lib) → Bool
      is_single [] = true
      is_single (r ∷ rs) = false

  add_convenience_shortcuts-IsSummary :
      (m : Dict (Any lib)) (rows : List (Row lib))
      → IsSummary rows (add_convenience_shortcuts lib m rows (length rows))
  unfolding add_convenience_shortcuts text_eq first_row
  add_convenience_shortcuts-IsSummary m [] = simp (lookup-insert) (refl, refl, refl, refl, refl)
  add_convenience_shortcuts-IsSummary m (r ∷ []) =
      simp (lookup-insert) (refl, refl, refl, refl, refl)
  add_convenience_shortcuts-IsSummary m (r ∷ s ∷ rs) =
      simp (lookup-insert) (refl, ground arith, ground arith, ground arith, ground arith)

  shown :
      (m : Dict (Any lib)) (rows : List (Row lib)) (count : ℕ)
      → (lookup (codes "data") (add_convenience_shortcuts lib m rows count)
          ≡ lookup (codes "data") m)
        × (lookup (codes "count") (add_convenience_shortcuts lib m rows count)
            ≡ lookup (codes "count") m)
  unfolding add_convenience_shortcuts text_eq
  shown m rows count = simp (lookup-insert) (refl, refl)

  -- What a map says of the rows of a result.
  abbrev pub IsTold : List (Row lib) → Dict (Any lib) → Type 0
  IsTold rows m =
      IsSummary rows m
      × (lookup (codes "data") m ≡ some (array (row_items lib rows)))
      × (lookup (codes "count") m ≡ some (natural lib (length rows)))

  add_convenience_shortcuts-IsTold :
      (m : Dict (Any lib)) (rows : List (Row lib)) (count : ℕ)
      → count ≡ length rows
      → lookup (codes "data") m ≡ some (array (row_items lib rows))
      → lookup (codes "count") m ≡ some (natural lib count)
      → IsTold rows (add_convenience_shortcuts lib m rows count)
  add_convenience_shortcuts-IsTold m rows count counted d c =
      let (d', c') = shown m rows count in
      (
        rw counted (add_convenience_shortcuts-IsSummary m rows),
        d' ∙ d,
        c' ∙ c ∙ ap (λ n. some (natural lib n)) counted,
      )

  module _ {Iteration : Type 0} (view : Iteration → Dict (Any lib))
      (r : StepResult lib Iteration) where
    query_fields_told :
        (m : Dict (Any lib))
        → (lookup (codes "data") (query_fields lib view r m)
            ≡ some (array (row_items lib (data_of lib r.rows))))
          × (lookup (codes "count") (query_fields lib view r m) ≡ some (natural lib r.count))
    unfolding query_fields text_eq
    query_fields_told m = simp (lookup-insert) (refl, refl)

    http_call_fields_told :
        (m : Dict (Any lib))
        → (lookup (codes "data") (http_call_fields lib view r m)
            ≡ some (array (row_items lib (data_of lib r.rows))))
          × (lookup (codes "count") (http_call_fields lib view r m) ≡ some (natural lib r.count))
    unfolding http_call_fields text_eq
    http_call_fields_told m = simp (lookup-insert) (refl, refl)

    query_map :
        text_eq r.result_type (codes "query") ≡ true
        → step_result_to_map lib view r
          ≡ add_convenience_shortcuts lib
              (query_fields lib view r (common_fields lib view r))
              (data_of lib r.rows)
              r.count
    unfolding step_result_to_map add_query add_http_call add_block
    query_map q =
        let h = text_eq_other r.result_type (codes "query") (codes "httpcall") q apart.0 in
        let b = text_eq_other r.result_type (codes "query") (codes "block") q apart.2 in
        rw (q, h, b) refl

    http_call_map :
        text_eq r.result_type (codes "httpcall") ≡ true
        → step_result_to_map lib view r
          ≡ add_convenience_shortcuts lib
              (http_call_fields lib view r (common_fields lib view r))
              (data_of lib r.rows)
              r.count
    unfolding step_result_to_map add_query add_http_call add_block
    http_call_map h =
        let q = text_eq_other r.result_type (codes "httpcall") (codes "query") h apart.1 in
        let b = text_eq_other r.result_type (codes "httpcall") (codes "block") h apart.3 in
        rw (q, h, b) refl

    -- For a query or an HTTP call whose count is that of its rows, the data of templates have
    -- these rows and their number, the first row or nil, and found, empty, one and many as the
    -- rows say.
    pub step_result_to_map-IsTold :
        (text_eq r.result_type (codes "query") ≡ true)
          ⊎ (text_eq r.result_type (codes "httpcall") ≡ true)
        → r.count ≡ length (data_of lib r.rows)
        → IsTold (data_of lib r.rows) (step_result_to_map lib view r)
    step_result_to_map-IsTold (inl q) counted =
        let (d, c) = query_fields_told (common_fields lib view r) in
        rw (query_map q) (
          add_convenience_shortcuts-IsTold (query_fields lib view r (common_fields lib view r))
            (data_of lib r.rows) r.count counted d c)
    step_result_to_map-IsTold (inr h) counted =
        let (d, c) = http_call_fields_told (common_fields lib view r) in
        rw (http_call_map h) (
          add_convenience_shortcuts-IsTold (http_call_fields lib view r (common_fields lib view r))
            (data_of lib r.rows) r.count counted d c)
