-- ===== src/Db/Query.antt =====
-- Query of the three drivers in internal/db, and what they share in common.go and driver.go.
pub mod Connections
use sqlproxy.Prelude.{
  ℕ, List, [], ◌∷◌, ◌++◌, map, Text, codes, Bool, true, false, not, ◌&&◌, Option, none, some,
  length, if◌then◌else◌, Dict, insert, Result, ok, err, ℤ, pos,
}
use sqlproxy.SqlUtil.{is_write_query, has_returning_clause}
use sqlproxy.Workflow.Query.{QueryResult}
use sqlproxy.Db.Params.{translate_query, build_args}
use sqlproxy.Db.Session.{
  SessionConfig, DatabaseConfig, is_read_only, mysql_session, sql_server_session, sqlite_session,
}

pub record QueryHints : Type 0 where
  pub is_write : Option Bool
  pub has_returning : Option Bool

-- an argument of a statement: by position, or sql.Named
pub data Argument (Value : Type 0) : Type 0 where
  at_place : Value → Argument Value
  named : Text → Value → Argument Value

-- a value that Scan reads
pub data Cell (Value Time : Type 0) : Type 0 where
  bytes : Text → Cell Value Time
  moment : Time → Cell Value Time
  plain : Value → Cell Value Time

-- sql.Rows: its columns, what Scan gives for each row, and Err
pub record Rows (Value Time : Type 0) : Type 0 where
  pub columns : Result Text (List Text)
  pub scanned : List (Result Text (List (Cell Value Time)))
  pub last_error : Option Text

-- database/sql: a connection of the pool, and the statements on it; the number of affected rows is 0
-- when the database does not tell it
pub record SqlLibrary : Type 1 where
  pub World : Type 0
  pub Value : Type 0
  pub Time : Type 0
  pub nil_value : Value
  pub text_value : Text → Value
  pub format_rfc3339 : Time → Text
  pub connect : World → World × Option Text
  pub close : World → World
  pub exec : Text → List (Argument Value) → World → World × Result Text ℤ
  pub query : Text → List (Argument Value) → World → World × Result Text (Rows Value Time)
  pub close_rows : World → World

-- SQLServerDriver, MySQLDriver and SQLiteDriver
pub data Driver : Type 0 where
  sql_server mysql sqlite : DatabaseConfig → Driver

-- resolveIsWrite and resolveHasReturning
unfoldable pub resolve_is_write : Option QueryHints → Text → Bool
resolve_is_write none query = is_write_query query
resolve_is_write (some h) query = elim h.is_write [ none ↦ is_write_query query | some b ↦ b ]

unfoldable pub resolve_has_returning : Option QueryHints → Text → Bool
resolve_has_returning none query = has_returning_clause query
resolve_has_returning (some h) query = elim h.has_returning [
  | none ↦ has_returning_clause query
  | some b ↦ b
]

-- the statements of configureSession, each with the words before its error
unfoldable pub session_of : Driver → SessionConfig → List (Text × Text)
unfolding mysql_session sql_server_session sqlite_session is_read_only
session_of (sql_server d) cfg = map (λ q. (q, [])) (sql_server_session cfg)
session_of (sqlite d) cfg =
    map (λ q. (q, codes "failed to execute " ++ q ++ codes ": ")) (sqlite_session d)
session_of (mysql d) cfg = elim (mysql_session (is_read_only d) cfg) [
  | [] ↦ []
  | i ∷ rest ↦ (i, codes "failed to set isolation level: ") ∷ elim rest [
    | [] ↦ []
    | t ∷ more ↦
        (t, codes "failed to set lock timeout: ")
        ∷ map (λ q. (q, codes "failed to set read only mode: ")) more
  ]
]

module _ (db : SqlLibrary) where
  unfoldable pub cell_value : Cell db.Value db.Time → db.Value
  cell_value (bytes b) = db.text_value b
  cell_value (moment t) = db.text_value (db.format_rfc3339 t)
  cell_value (plain v) = v

  -- the row of a map; Scan fills one cell for each column
  unfoldable pub row_of : List Text → List (Cell db.Value db.Time) → Dict db.Value → Dict db.Value
  unfolding cell_value
  row_of [] cells row = row
  row_of (col ∷ cols) [] row = row
  row_of (col ∷ cols) (c ∷ cells) row = row_of cols cells (insert col (cell_value c) row)

  unfoldable pub scan_from :
      List Text
      → Option Text
      → List (Result Text (List (Cell db.Value db.Time)))
      → Result Text (List (Dict db.Value))
  unfolding row_of
  scan_from cols last [] = elim last [
    | none ↦ ok []
    | some e ↦ err (codes "row iteration error: " ++ e)
  ]
  scan_from cols last (err e ∷ rows) = err (codes "failed to scan row: " ++ e)
  scan_from cols last (ok cells ∷ rows) = elim (scan_from cols last rows) [
    | err e ↦ err e
    | ok rs ↦ ok (row_of cols cells [] ∷ rs)
  ]

  unfoldable pub scan_rows : Rows db.Value db.Time → Result Text (List (Dict db.Value))
  unfolding scan_from
  scan_rows r = elim r.columns [
    | err e ↦ err (codes "failed to get columns: " ++ e)
    | ok cols ↦ scan_from cols r.last_error r.scanned
  ]

  -- the loop over the statements of a session
  unfoldable pub configure_session : List (Text × Text) → db.World → db.World × Option Text
  configure_session [] w = (w, none)
  configure_session ((q, before) ∷ qs) w =
      let done = db.exec q [] w in
      elim done.1 [ err e ↦ (done.0, some (before ++ e)) | ok n ↦ configure_session qs done.0 ]

  -- the statement and the arguments that the driver sends
  unfoldable pub prepare : Driver → Text → Dict db.Value → Text × List (Argument db.Value)
  prepare (mysql d) query params =
      let translated = translate_query db.nil_value params query in
      (translated.0, map at_place translated.1)
  prepare (sql_server d) query params =
      (query, map (λ a. named a.0 a.1) (build_args db.nil_value params query))
  prepare (sqlite d) query params =
      (query, map (λ a. named a.0 a.1) (build_args db.nil_value params query))

  abbrev pub Outcome : Type 0
  Outcome = db.World × Result Text (QueryResult db.Value)

  -- writes without RETURNING
  unfoldable pub run_exec : Text × List (Argument db.Value) → db.World → Outcome
  run_exec sent w =
      let done = db.exec sent.0 sent.1 w in
      elim done.1 [
        | err e ↦ (done.0, err (codes "exec failed: " ++ e))
        | ok n ↦ (done.0, ok (record { rows = []; rows_affected = n }))
      ]

  -- all else
  unfoldable pub run_query : Bool → Text × List (Argument db.Value) → db.World → Outcome
  unfolding scan_rows
  run_query is_write sent w =
      let done = db.query sent.0 sent.1 w in
      elim done.1 [
        | err e ↦ (done.0, err (codes "query failed: " ++ e))
        | ok rows ↦ (
          db.close_rows done.0,
          elim (scan_rows rows) [
            | err e ↦ err e
            | ok rs ↦
                ok (record {
                  rows = rs;
                  rows_affected = if is_write then pos (length rs) else pos 0;
                })
          ],
        )
      ]

  -- Query after the session is configured, before the connection is closed
  unfoldable pub run_statement :
      Driver → Text → Dict db.Value → Option QueryHints → db.World → Outcome
  unfolding prepare run_exec run_query resolve_is_write resolve_has_returning
  run_statement d query params hints w =
      if resolve_is_write hints query && not (resolve_has_returning hints query)
      then run_exec (prepare d query params) w
      else run_query (resolve_is_write hints query) (prepare d query params) w

  unfoldable pub query_driver :
      Driver → SessionConfig → Text → Dict db.Value → Option QueryHints → db.World → Outcome
  unfolding session_of configure_session run_statement
  query_driver d cfg query params hints w =
      let opened = db.connect w in
      elim opened.1 [
        | some e ↦ (opened.0, err (codes "failed to get connection: " ++ e))
        | none ↦
            let configured = configure_session (session_of d cfg) opened.0 in
            elim configured.1 [
              | some e ↦ (db.close configured.0, err (codes "failed to configure session: " ++ e))
              | none ↦
                  let done = run_statement d query params hints configured.0 in
                  (db.close done.0, done.1)
            ]
      ]
