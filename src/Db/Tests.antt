-- ===== src/Db/Tests.antt =====
-- Runs of the drivers in internal/db.
use sqlproxy.Prelude.{
  ℕ, suc, ◌+◌, ◌-◌, ◌≡◌, refl, arith, [], ◌∷◌, map, Text, codes, false, Option, none, some, text_eq,
  length, lookup, insert, ok, pos,
}
use sqlproxy.SqlUtil.Words.{is_ident_char, take_ident, drop_ident}
use sqlproxy.Workflow.Query.{QueryResult}
use sqlproxy.Db.Params.{begins_word, query_names, value_or_nil, translate_from, translate_query}
use sqlproxy.Db.Params.Placeholders.{marks, translate_query-args}
use sqlproxy.Db.Session.{SessionConfig, is_read_only, mysql_session}
use sqlproxy.Db.Query.{
  SqlLibrary, Driver, mysql, bytes, QueryHints, session_of, configure_session, scan_rows, scan_from,
  row_of, cell_value, run_query, run_statement, query_driver, resolve_is_write,
  resolve_has_returning,
}
use sqlproxy.Db.Query.Connections.{IsPool, query_driver_returns_connection, query_driver-IsCounted}

abbrev find_user : Text
find_user = codes "SELECT * FROM u WHERE id = @id OR mail = 'a@b.c'"

-- An address in a literal is taken for a parameter.
find_user_run :
    translate_query [] ((codes "id", codes "7") ∷ []) find_user
    ≡ (codes "SELECT * FROM u WHERE id = ? OR mail = 'a?.c'", codes "7" ∷ [] ∷ [])
unfolding translate_query translate_from value_or_nil begins_word is_ident_char take_ident
    drop_ident lookup text_eq
find_user_run = refl

translate_query-args_example :
    let translated = translate_query [] ((codes "id", codes "7") ∷ []) find_user in
    (translated.1 ≡ map (value_or_nil [] ((codes "id", codes "7") ∷ [])) (query_names find_user))
    × (marks translated.0 ≡ marks find_user + length translated.1)
    × (query_names translated.0 ≡ [])
translate_query-args_example = translate_query-args [] ((codes "id", codes "7") ∷ []) find_user

-- A world is the number of connections that are taken; every query gives one row.
abbrev one_user : SqlLibrary
one_user = record {
  World = ℕ;
  Value = Text;
  Time = Unit;
  nil_value = [];
  text_value = λ t. t;
  format_rfc3339 = λ t. [];
  connect = λ w. (suc w, none);
  close = λ w. w - 1;
  exec = λ q args w. (w, ok (pos 3));
  query = λ q args w. (
    w,
    ok (record {
      columns = ok (codes "id" ∷ []);
      scanned = ok (bytes (codes "7") ∷ []) ∷ [];
      last_error = none;
    }),
  );
  close_rows = λ w. w;
}

abbrev server : Driver
server = mysql (record {
  db_type = codes "mysql";
  read_only = none;
  busy_timeout_ms = none;
  journal_mode = [];
})

abbrev session : SessionConfig
session = record {
  isolation = codes "read_committed";
  lock_timeout_ms = pos 5000;
  deadlock_priority = codes "low";
}

one_user-IsPool : IsPool one_user (λ w. w)
one_user-IsPool = record {
  taken = λ w h. refl;
  not_taken = λ w e h. absurd (cc (h));
  returned = λ w n h. omega arith;
  executed = λ q args w. refl;
  queried = λ q args w. refl;
  rows_closed = λ w. refl;
}

query_driver_returns_connection_example :
    (query_driver one_user server session find_user [] none 4).0 ≡ 4
query_driver_returns_connection_example =
    query_driver_returns_connection one_user (λ w. w) one_user-IsPool server session find_user []
      none 4

abbrev reading : Option QueryHints
reading = some (record { is_write = some false; has_returning = some false })

abbrev found : QueryResult Text
found = record { rows = ((codes "id", codes "7") ∷ []) ∷ []; rows_affected = pos 0 }

query_driver_run : (query_driver one_user server session find_user [] reading 4).1 ≡ ok found
unfolding query_driver session_of configure_session run_statement run_query scan_rows scan_from
    row_of cell_value resolve_is_write resolve_has_returning is_read_only mysql_session insert
query_driver_run = refl

query_driver-IsCounted_example : found.rows_affected ≡ pos 0
unfolding resolve_is_write
query_driver-IsCounted_example =
    query_driver-IsCounted one_user server session find_user [] reading 4 found query_driver_run
