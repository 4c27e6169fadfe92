-- ===== src/Workflow/Validate/Leaves.antt =====
-- The checks of one step's own fields in internal/workflow/validate.go.
use sqlproxy.Prelude.{
  ℕ, List, [], ◌∷◌, ◌++◌, Text, codes, Bool, true, false, not, ◌&&◌, ◌||◌, Option, none, some, ltb,
  ◌==◌, if◌then◌else◌, Dict, lookup, insert, ℤ, pos, negsuc,
}
use sqlproxy.RateLimit.InlineKey.{decimal}
use sqlproxy.SqlUtil.{requires_write_access}
use sqlproxy.Params.Texts.{one_of}
use sqlproxy.Workflow.Config.{RetryConfig, StepConfig, filled}
use sqlproxy.Workflow.Validate.Triggers.{ValidationContext, valid_http_methods, is_negative}
use sqlproxy.Workflow.Validate.Report.{
  Issues, silent, report, ◌&◌, error_at, when, database_required, sql_required, url_required,
  template_required, invalid_method, invalid_isolation, invalid_deadlock_priority, invalid_parse,
  invalid_status, duplicate_step, unknown_database, read_only_database, template_in_sql,
  negative_attempts, negative_initial_backoff, negative_max_backoff, block_with_type,
  block_with_sql, block_with_url, block_with_template,
}

-- "{{", and a "}}" after it with no '}' before: the match of \{\{[^}]*\}\}
unfoldable pub closes_template : Text → Bool
closes_template [] = false
closes_template (c ∷ s) = let rest = closes_template s in if c == b'}' then begins s else rest
  where
    begins : Text → Bool
    begins [] = false
    begins (d ∷ t) = d == b'}'

unfoldable pub contains_template_interpolation : Text → Bool
unfolding closes_template
contains_template_interpolation [] = false
contains_template_interpolation (c ∷ []) = false
contains_template_interpolation (c ∷ d ∷ s) =
    let rest = contains_template_interpolation (d ∷ s) in
    c == b'{' && (d == b'{' && closes_template s) || rest

abbrev pub valid_isolation_levels : List Text
valid_isolation_levels =
    codes "read_uncommitted"
    ∷ codes "read_committed"
    ∷ codes "repeatable_read"
    ∷ codes "serializable"
    ∷ codes "snapshot"
    ∷ []

abbrev pub valid_deadlock_priorities : List Text
valid_deadlock_priorities = codes "low" ∷ codes "normal" ∷ codes "high" ∷ []

abbrev pub valid_parse_modes : List Text
valid_parse_modes = codes "json" ∷ codes "text" ∷ codes "form" ∷ codes "" ∷ []

-- an optional word that is none of the valid ones
unfoldable pub unknown_word : Text → List Text → Bool
unknown_word s valid = filled s && not (one_of s valid)

-- code != 0 && (code < 100 || code > 599)
unfoldable pub bad_status : ℤ → Bool
bad_status (negsuc n) = true
bad_status (pos n) = not (n == 0) && (ltb n 100 || ltb 599 n)

unfoldable pub validate_retry : RetryConfig → Text → Issues
unfolding is_negative
validate_retry r place =
    when (is_negative r.max_attempts) (error_at place negative_attempts)
    & (when (is_negative r.initial_backoff_sec) (error_at place negative_initial_backoff)
        & when (is_negative r.max_backoff_sec) (error_at place negative_max_backoff))

unfoldable pub is_empty : {E : Type 0} → List E → Bool
is_empty [] = true
is_empty (s ∷ ss) = false

unfoldable pub source_of : Text → Dict Text → Text
source_of a aliases = elim (lookup a aliases) [ none ↦ [] | some s ↦ s ]

module _ {Nested : Type 0} where
  unfoldable pub validate_database : Option ValidationContext → StepConfig Nested → Text → Issues
  validate_database ctx cfg prefix =
      if not (filled cfg.database) then report (error_at prefix database_required) else elim ctx [
        | none ↦ silent
        | some c ↦ elim (lookup cfg.database c.databases) [
          | none ↦ report (error_at prefix unknown_database)
          | some read_only ↦
              when (read_only && requires_write_access cfg.sql) (error_at prefix read_only_database)
        ]
      ]

  unfoldable pub validate_query_step : Option ValidationContext → StepConfig Nested → Text → Issues
  unfolding validate_database unknown_word
  validate_query_step ctx cfg prefix =
      validate_database ctx cfg prefix
      & ((if filled cfg.sql
            then when (contains_template_interpolation cfg.sql) (error_at prefix template_in_sql)
            else report (error_at prefix sql_required))
          & (when (unknown_word cfg.isolation valid_isolation_levels)
                (error_at prefix invalid_isolation)
              & when (unknown_word cfg.deadlock_priority valid_deadlock_priorities)
                  (error_at prefix invalid_deadlock_priority)))

  unfoldable pub validate_http_call_step : StepConfig Nested → Text → Issues
  unfolding validate_retry unknown_word
  validate_http_call_step cfg prefix =
      when (not (filled cfg.url)) (error_at prefix url_required)
      & (when (unknown_word cfg.http_method valid_http_methods) (error_at prefix invalid_method)
          & (when (unknown_word cfg.parse valid_parse_modes) (error_at prefix invalid_parse)
              & (elim cfg.retry [
                | none ↦ silent
                | some r ↦ validate_retry r (prefix ++ codes ".retry")
              ])))

  unfoldable pub validate_response_step : StepConfig Nested → Text → Issues
  unfolding bad_status
  validate_response_step cfg prefix =
      when (not (filled cfg.template)) (error_at prefix template_required)
      & when (bad_status cfg.status_code) (error_at prefix invalid_status)

  -- what a block may not have
  unfoldable pub validate_block_fields : StepConfig Nested → Text → Issues
  validate_block_fields cfg prefix =
      when (filled cfg.step_type) (error_at prefix block_with_type)
      & (when (filled cfg.sql) (error_at prefix block_with_sql)
          & (when (filled cfg.url) (error_at prefix block_with_url)
              & when (filled cfg.template) (error_at prefix block_with_template)))

  -- prefix.steps[name], with #i for a step without a name
  unfoldable pub step_place : Text → ℕ → StepConfig Nested → Text
  step_place prefix i cfg =
      prefix
      ++ (codes ".steps["
          ++ ((if filled cfg.name then cfg.name else codes "#" ++ decimal (pos i) []) ++ codes "]"))

  -- the index of a step under its name, if it has one
  unfoldable pub note_name : StepConfig Nested → ℕ → Dict ℕ → Dict ℕ
  note_name cfg i names = if filled cfg.name then insert cfg.name i names else names

  unfoldable pub check_name : StepConfig Nested → Dict ℕ → Text → Issues
  check_name cfg names place =
      when (filled cfg.name && (elim (lookup cfg.name names) [ none ↦ false | some _ ↦ true ]))
        (error_at place duplicate_step)
