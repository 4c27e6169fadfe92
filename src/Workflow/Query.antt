-- ===== src/Workflow/Query.antt =====
-- executeQueryStep of internal/workflow/execute_query.go.
use sqlproxy.Prelude.{
  ℕ, List, [], Text, Bool, true, false, Option, none, some, Result, ok, err, length, Dict, ℤ, pos,
}
use sqlproxy.Workflow.Config.{StepConfig}
use sqlproxy.Workflow.SqlParams.{extract_sql_params}

-- step.QueryOptions and step.QueryResult
pub record QueryOptions : Type 0 where
  pub isolation : Text
  pub lock_timeout_ms : Option ℤ
  pub deadlock_priority : Text
  pub json_columns : List Text
  pub is_write : Option Bool
  pub has_returning : Option Bool

pub record QueryResult (Value : Type 0) : Type 0 where
  pub rows : List (Dict Value)
  pub rows_affected : ℤ

-- The database manager, text/template and the values of Go; `fields` is the type assertion to
-- map[string]any.
pub record QueryLibrary : Type 1 where
  pub World : Type 0
  pub Template : Type 0
  pub Value : Type 0
  pub execute : Template → Dict Value → Result Text Text
  pub fields : Value → Option (Dict Value)
  pub execute_query :
      Text → Text → Dict Value → QueryOptions → World → World × Result Text (QueryResult Value)

pub data Error : Type 0 where
  sql_template query_failed : Text → Error

module _ (lib : QueryLibrary) where
  pub record CompiledStep (Nested : Type 0) : Type 0 where
    pub config : StepConfig Nested
    pub sql_tmpl : lib.Template
    pub is_write : Bool
    pub has_returning : Bool

  -- The fields of a StepResult that a query fills in.
  pub record StepResult : Type 0 where
    pub success : Bool
    pub error : Option Error
    pub rows : List (Dict lib.Value)
    pub count : ℕ
    pub rows_affected : ℤ

  abbrev pub failure : Error → StepResult
  failure e = record {
    success = false;
    error = some e;
    rows = [];
    count = 0;
    rows_affected = pos 0;
  }

  options_of : {Nested : Type 0} → CompiledStep Nested → QueryOptions
  options_of cs = record {
    isolation = cs.config.isolation;
    lock_timeout_ms = cs.config.lock_timeout_ms;
    deadlock_priority = cs.config.deadlock_priority;
    json_columns = cs.config.json_columns;
    is_write = some cs.is_write;
    has_returning = some cs.has_returning;
  }

  query_result : Result Text (QueryResult lib.Value) → StepResult
  query_result (err e) = failure (query_failed e)
  query_result (ok qr) = record {
    success = true;
    error = none;
    rows = qr.rows;
    count = length qr.rows;
    rows_affected = qr.rows_affected;
  }

  pub execute_query_step :
      {Nested : Type 0} → CompiledStep Nested → Dict lib.Value → lib.World → lib.World × StepResult
  unfolding options_of query_result
  execute_query_step cs data_map w = elim (lib.execute cs.sql_tmpl data_map) [
    | err e ↦ (w, failure (sql_template e))
    | ok sql ↦
        let params = extract_sql_params lib.fields sql data_map in
        let (w', r) = lib.execute_query cs.config.database sql params (options_of cs) w in
        (w', query_result r)
  ]
