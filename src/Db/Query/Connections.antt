-- ===== src/Db/Query/Connections.antt =====
-- Query of internal/db gives back the connection that it takes, and counts what it returns.
use sqlproxy.Prelude.{
  ℕ, suc, ◌≡◌, refl, ◌∙◌, inl, inr, List, [], ◌∷◌, Text, Bool, true, false, not, ◌&&◌, Option, none,
  some, Option-cases, Bool-cases, length, Dict, Result, ok, err, Result-cases, pos,
}
use mathlib.Core.Path.{subst}
use sqlproxy.Workflow.Query.{QueryResult}
use sqlproxy.Db.Session.{SessionConfig}
use sqlproxy.Db.Query.{
  SqlLibrary, Argument, Driver, QueryHints, resolve_is_write, resolve_has_returning, session_of,
  configure_session, prepare, scan_rows, run_exec, run_query, run_statement, query_driver,
}

module _ (db : SqlLibrary) where
  -- `used` is the number of connections taken from the pool.
  pub record IsPool (used : db.World → ℕ) : Type 0 where
    pub taken : (w : db.World) → (db.connect w).1 ≡ none → used (db.connect w).0 ≡ suc (used w)
    pub not_taken :
        (w : db.World) (e : Text) → (db.connect w).1 ≡ some e → used (db.connect w).0 ≡ used w
    pub returned : (w : db.World) (n : ℕ) → used w ≡ suc n → used (db.close w) ≡ n
    pub executed :
        (q : Text) (args : List (Argument db.Value)) (w : db.World)
        → used (db.exec q args w).0 ≡ used w
    pub queried :
        (q : Text) (args : List (Argument db.Value)) (w : db.World)
        → used (db.query q args w).0 ≡ used w
    pub rows_closed : (w : db.World) → used (db.close_rows w) ≡ used w

  module _ (used : db.World → ℕ) (p : IsPool used) where
    configure_session_keeps :
        (qs : List (Text × Text)) (w : db.World) → used (configure_session db qs w).0 ≡ used w
    unfolding configure_session
    configure_session_keeps [] w = refl
    configure_session_keeps ((q, before) ∷ qs) w = elim (Result-cases (db.exec q [] w).1) [
      | inl (e, h) ↦ simp (configure_session, h) (p.executed q [] w)
      | inr (n, h) ↦
          simp (configure_session, h)
            (configure_session_keeps qs (db.exec q [] w).0 ∙ p.executed q [] w)
    ]

    run_exec_keeps :
        (sent : Text × List (Argument db.Value)) (w : db.World)
        → used (run_exec db sent w).0 ≡ used w
    unfolding run_exec
    run_exec_keeps sent w = elim (Result-cases (db.exec sent.0 sent.1 w).1) [
      | inl (e, h) ↦ simp (run_exec, h) (p.executed sent.0 sent.1 w)
      | inr (n, h) ↦ simp (run_exec, h) (p.executed sent.0 sent.1 w)
    ]

    run_query_keeps :
        (is_write : Bool) (sent : Text × List (Argument db.Value)) (w : db.World)
        → used (run_query db is_write sent w).0 ≡ used w
    unfolding run_query
    run_query_keeps is_write sent w = elim (Result-cases (db.query sent.0 sent.1 w).1) [
      | inl (e, h) ↦ simp (run_query, h) (p.queried sent.0 sent.1 w)
      | inr (rows, h) ↦
          simp (run_query, h)
            (p.rows_closed (db.query sent.0 sent.1 w).0 ∙ p.queried sent.0 sent.1 w)
    ]

    run_statement_keeps :
        (d : Driver) (query : Text) (params : Dict db.Value) (hints : Option QueryHints)
        (w : db.World)
        → used (run_statement db d query params hints w).0 ≡ used w
    unfolding run_statement
    run_statement_keeps d query params hints w =
        elim (Bool-cases
          (resolve_is_write hints query && not (resolve_has_returning hints query))) [
            | inl h ↦ simp (run_statement, h) (run_exec_keeps (prepare db d query params) w)
            | inr h ↦
                simp (run_statement, h)
                  (run_query_keeps (resolve_is_write hints query) (prepare db d query params) w)
          ]

    -- With a pool that counts its connections, Query of any driver leaves as many connections
    -- taken as before, on every path, errors included.
    pub query_driver_returns_connection :
        (d : Driver) (cfg : SessionConfig) (query : Text) (params : Dict db.Value)
        (hints : Option QueryHints) (w : db.World)
        → used (query_driver db d cfg query params hints w).0 ≡ used w
    unfolding query_driver
    query_driver_returns_connection d cfg query params hints w =
        let opened = db.connect w in
        let configured = configure_session db (session_of d cfg) opened.0 in
        let kept = configure_session_keeps (session_of d cfg) opened.0 in
        elim (Option-cases opened.1) [
          | inr (e, o) ↦ simp (query_driver, o) (p.not_taken w e o)
          | inl o ↦ elim (Option-cases configured.1) [
            | inr (e, c) ↦
                simp (query_driver, o, c) (p.returned configured.0 (used w) (kept ∙ p.taken w o))
            | inl c ↦
                simp (query_driver, o, c)
                  (p.returned (run_statement db d query params hints configured.0).0 (used w)
                    (run_statement_keeps d query params hints configured.0 ∙ kept ∙ p.taken w o))
          ]
        ]

  -- What a result says of the rows affected, for a write or not, with RETURNING or not.
  abbrev pub IsCounted : Bool → Bool → QueryResult db.Value → Type 0
  IsCounted true false r = r.rows ≡ []
  IsCounted true true r = r.rows_affected ≡ pos (length r.rows)
  IsCounted false returning r = r.rows_affected ≡ pos 0

  abbrev CountedIf : Bool → Bool → Result Text (QueryResult db.Value) → Type 0
  CountedIf is_write returning (err e) = Unit
  CountedIf is_write returning (ok r) = IsCounted is_write returning r

  run_exec-CountedIf :
      (sent : Text × List (Argument db.Value)) (w : db.World)
      → CountedIf true false (run_exec db sent w).1
  unfolding run_exec
  run_exec-CountedIf sent w = elim (Result-cases (db.exec sent.0 sent.1 w).1) [
    | inl (e, h) ↦ simp (run_exec, h) tt
    | inr (n, h) ↦ simp (run_exec, h) refl
  ]

  run_query-CountedIf :
      (is_write returning : Bool) (sent : Text × List (Argument db.Value)) (w : db.World)
      → (is_write && not returning) ≡ false
      → CountedIf is_write returning (run_query db is_write sent w).1
  unfolding run_query
  run_query-CountedIf true false sent w n = absurd (cc)
  run_query-CountedIf true true sent w n = elim (Result-cases (db.query sent.0 sent.1 w).1) [
    | inl (e, h) ↦ simp (run_query, h) tt
    | inr (rows, h) ↦ elim (Result-cases (scan_rows db rows)) [
      | inl (e, s) ↦ simp (run_query, h, s) tt
      | inr (rs, s) ↦ simp (run_query, h, s) refl
    ]
  ]
  run_query-CountedIf false returning sent w n = elim (Result-cases (db.query sent.0 sent.1 w).1) [
    | inl (e, h) ↦ simp (run_query, h) tt
    | inr (rows, h) ↦ elim (Result-cases (scan_rows db rows)) [
      | inl (e, s) ↦ simp (run_query, h, s) tt
      | inr (rs, s) ↦ simp (run_query, h, s) refl
    ]
  ]

  run_statement-CountedIf :
      (d : Driver) (query : Text) (params : Dict db.Value) (hints : Option QueryHints)
      (w : db.World) (is_write returning : Bool)
      → resolve_is_write hints query ≡ is_write
      → resolve_has_returning hints query ≡ returning
      → CountedIf is_write returning (run_statement db d query params hints w).1
  unfolding run_statement
  run_statement-CountedIf d query params hints w true false a b =
      simp (run_statement, a, b) (run_exec-CountedIf (prepare db d query params) w)
  run_statement-CountedIf d query params hints w true true a b =
      simp (run_statement, a, b) (run_query-CountedIf true true (prepare db d query params) w refl)
  run_statement-CountedIf d query params hints w false returning a b =
      simp (run_statement, a, b)
        (run_query-CountedIf false returning (prepare db d query params) w refl)

  query_driver-CountedIf :
      (d : Driver) (cfg : SessionConfig) (query : Text) (params : Dict db.Value)
      (hints : Option QueryHints) (w : db.World)
      → CountedIf
          (resolve_is_write hints query)
          (resolve_has_returning hints query)
          (query_driver db d cfg query params hints w).1
  unfolding query_driver
  query_driver-CountedIf d cfg query params hints w =
      let opened = db.connect w in
      let configured = configure_session db (session_of d cfg) opened.0 in
      elim (Option-cases opened.1) [
        | inr (e, o) ↦ simp (query_driver, o) tt
        | inl o ↦ elim (Option-cases configured.1) [
          | inr (e, c) ↦ simp (query_driver, o, c) tt
          | inl c ↦
              simp (query_driver, o, c)
                (run_statement-CountedIf d query params hints configured.0 _ _ refl refl)
        ]
      ]

  -- When Query of any driver succeeds, a write without RETURNING has no rows, a write with it
  -- affects as many rows as it returns, and another statement affects none.
  pub query_driver-IsCounted :
      (d : Driver) (cfg : SessionConfig) (query : Text) (params : Dict db.Value)
      (hints : Option QueryHints) (w : db.World) (r : QueryResult db.Value)
      → (query_driver db d cfg query params hints w).1 ≡ ok r
      → IsCounted (resolve_is_write hints query) (resolve_has_returning hints query) r
  query_driver-IsCounted d cfg query params hints w r h =
      subst (CountedIf (resolve_is_write hints query) (resolve_has_returning hints query)) h
        (query_driver-CountedIf d cfg query params hints w)
