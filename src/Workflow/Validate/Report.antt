-- ===== src/Workflow/Validate/Report.antt =====
-- The messages of internal/workflow/validate.go and the ValidationResult that holds them.
use sqlproxy.Prelude.{◌≡◌, refl, inl, inr, Bool-cases, List, [], ◌∷◌, ◌++◌, Text, Bool, true, false}

pub data Problem : Type 0 where
  name_required trigger_required step_required type_required path_required method_required : Problem
  key_required schedule_required pool_or_inline_required database_required sql_required : Problem
  url_required template_required over_required as_required response_missing : Problem
  invalid_type invalid_method invalid_expression invalid_evict_cron invalid_schedule : Problem
  invalid_isolation invalid_deadlock_priority invalid_parse invalid_on_error invalid_status :
      Problem
  path_without_slash reserved_path reserved_parameter duplicate_parameter duplicate_route : Problem
  duplicate_step path_parameter_optional path_parameter_undefined negative_ttl : Problem
  pool_and_inline unknown_pool rate_not_positive burst_not_positive : Problem
  unknown_step self_reference forward_reference unknown_database read_only_database : Problem
  template_in_sql negative_attempts negative_initial_backoff negative_max_backoff : Problem
  block_with_type block_with_sql block_with_url block_with_template iterate_without_steps : Problem
  empty_block response_in_block response_without_http unconditional_responses : Problem
  only_conditional_responses ignored_path ignored_method ignored_cache : Problem

-- A message: the path in the configuration, and what it says.
pub data Issue : Type 0 where
  error_at warning_at : Text → Problem → Issue

pub record ValidationResult : Type 0 where
  pub valid : Bool
  pub errors : List (Text × Problem)
  pub warnings : List (Text × Problem)

-- addError and addWarning
unfoldable pub add_issue : Issue → ValidationResult → ValidationResult
add_issue (error_at place p) r = record r { valid = false; errors = r.errors ++ ((place, p) ∷ []) }
add_issue (warning_at place p) r = record r { warnings = r.warnings ++ ((place, p) ∷ []) }

-- The messages of a check in their order.
infixr 5 ◌&◌
pub data Issues : Type 0 where
  silent : Issues
  report : Issue → Issues
  ◌&◌ : Issues → Issues → Issues

unfoldable pub add_issues : Issues → ValidationResult → ValidationResult
unfolding add_issue
add_issues silent r = r
add_issues (report i) r = add_issue i r
add_issues (a & b) r = add_issues b (add_issues a r)

unfoldable pub when : Bool → Issue → Issues
when true i = report i
when false i = silent

-- No message of the check is an error.
abbrev pub NoErrors : Issues → Type 0
NoErrors silent = Unit
NoErrors (report (error_at place p)) = ⊥
NoErrors (report (warning_at place p)) = Unit
NoErrors (a & b) = NoErrors a × NoErrors b

pub NoErrors-when :
    (b : Bool) (place : Text) (p : Problem) → NoErrors (when b (error_at place p)) → b ≡ false
unfolding when
NoErrors-when true place p h = absurd h
NoErrors-when false place p h = refl

add_issues_invalid :
    (is : Issues) (r : ValidationResult) → r.valid ≡ false → (add_issues is r).valid ≡ false
unfolding add_issues add_issue
add_issues_invalid silent r e = e
add_issues_invalid (report (error_at place p)) r e = refl
add_issues_invalid (report (warning_at place p)) r e = e
add_issues_invalid (a & b) r e = add_issues_invalid b (add_issues a r) (add_issues_invalid a r e)

-- A result that is valid in the end met no error.
pub add_issues_valid :
    (is : Issues) (r : ValidationResult) → (add_issues is r).valid ≡ true → NoErrors is
unfolding add_issues add_issue
add_issues_valid silent r e = tt
add_issues_valid (report (error_at place p)) r e = cc
add_issues_valid (report (warning_at place p)) r e = tt
add_issues_valid (a & b) r e = elim (Bool-cases (add_issues a r).valid) [
  | inl still ↦ (add_issues_valid a r still, add_issues_valid b (add_issues a r) e)
  | inr off ↦ (let bad = add_issues_invalid b (add_issues a r) off in cc)
]
