-- ===== src/Workflow/Validate/Triggers.antt =====
-- validateTrigger of internal/workflow/validate.go and the functions that it calls.
use sqlproxy.Prelude.{
  ℕ, suc, List, [], ◌∷◌, ◌++◌, Text, codes, Bool, true, false, not, ◌&&◌, ◌||◌, Option, none, some,
  if◌then◌else◌, text_eq, has_prefix, Dict, lookup, ℤ, pos, negsuc,
}
use sqlproxy.RateLimit.InlineKey.{RateLimitConfig, is_positive, decimal}
use sqlproxy.Params.Texts.{one_of, to_lower}
use sqlproxy.Params.{ParamConfig}
use sqlproxy.Workflow.Config.{TriggerConfig, TriggerCacheConfig, filled}
use sqlproxy.Workflow.Handler.Parameters.{extract_path_params}
use sqlproxy.Workflow.Validate.Cron.{CronLibrary, accepts_cron}
use sqlproxy.Workflow.Validate.Report.{
  Issues, silent, report, ◌&◌, error_at, warning_at, when, type_required, path_required,
  method_required, key_required, schedule_required, pool_or_inline_required, name_required,
  invalid_type, invalid_method, invalid_evict_cron, invalid_schedule, path_without_slash,
  reserved_path, reserved_parameter, duplicate_parameter, path_parameter_optional,
  path_parameter_undefined, negative_ttl, pool_and_inline, unknown_pool, rate_not_positive,
  burst_not_positive, ignored_path, ignored_method, ignored_cache,
}

-- whether each database is read-only, and the names of the rate limit pools
pub record ValidationContext : Type 0 where
  pub databases : Dict Bool
  pub rate_limit_pools : Dict Bool

-- fmt.Sprintf("%s.<name>[%d]", prefix, i)
unfoldable pub indexed : Text → Text → ℕ → Text
indexed prefix name i =
    prefix ++ (codes "." ++ (name ++ (codes "[" ++ decimal (pos i) (codes "]"))))

unfoldable pub is_set : Text → Dict Bool → Bool
is_set k m = elim (lookup k m) [ none ↦ false | some b ↦ b ]

abbrev pub valid_http_methods : List Text
valid_http_methods =
    codes "GET"
    ∷ codes "POST"
    ∷ codes "PUT"
    ∷ codes "PATCH"
    ∷ codes "DELETE"
    ∷ codes "HEAD"
    ∷ codes "OPTIONS"
    ∷ codes ""
    ∷ []

abbrev pub valid_param_types : List Text
valid_param_types =
    codes "string"
    ∷ codes "int"
    ∷ codes "integer"
    ∷ codes "float"
    ∷ codes "double"
    ∷ codes "bool"
    ∷ codes "boolean"
    ∷ codes "datetime"
    ∷ codes "date"
    ∷ codes "json"
    ∷ codes "int[]"
    ∷ codes "string[]"
    ∷ codes "float[]"
    ∷ codes "bool[]"
    ∷ []

unfoldable pub is_valid_param_type : Text → Bool
is_valid_param_type t = one_of (to_lower t) valid_param_types

unfoldable pub is_valid_http_method : Text → Bool
is_valid_http_method m = filled m && one_of m valid_http_methods

-- The keys of a map that is filled with the names in order.
unfoldable pub names_set : List Text → List Text → List Text
names_set [] seen = seen
names_set (n ∷ ns) seen = names_set ns (if one_of n seen then seen else seen ++ (n ∷ []))

unfoldable pub validate_path : TriggerConfig → Text → Issues
unfolding when
validate_path cfg prefix =
    if filled cfg.path
    then when (not (has_prefix cfg.path (codes "/"))) (error_at prefix path_without_slash)
      & when (has_prefix cfg.path (codes "/_/")) (error_at prefix reserved_path)
    else report (error_at prefix path_required)

unfoldable pub validate_method : TriggerConfig → Text → Issues
unfolding when is_valid_http_method
validate_method cfg prefix =
    if filled cfg.method
    then when (not (is_valid_http_method cfg.method)) (error_at prefix invalid_method)
    else report (error_at prefix method_required)

-- the body of the loop over the parameters, for a parameter with a name
unfoldable pub validate_parameter : List Text → List Text → ParamConfig → Text → Issues
unfolding when is_valid_param_type
validate_parameter path seen p place =
    when (one_of p.name seen) (error_at place duplicate_parameter)
    & (when (text_eq p.name (codes "_timeout") || text_eq p.name (codes "_nocache"))
          (error_at place reserved_parameter)
        & (when (filled p.type_name && not (is_valid_param_type p.type_name))
              (error_at place invalid_type)
            & when (one_of p.name path && not p.required) (error_at place path_parameter_optional)))

-- The loop from index i on: its messages, and the names that it has seen in the end.
unfoldable pub validate_parameters :
    List Text → Text → ℕ → List ParamConfig → List Text → Issues × List Text
unfolding validate_parameter
validate_parameters path prefix i [] seen = (silent, seen)
validate_parameters path prefix i (p ∷ ps) seen =
    let place = indexed prefix (codes "parameters") i in
    let named = filled p.name in
    let rest = validate_parameters path prefix (suc i) ps (if named then p.name ∷ seen else seen) in
    (
      (if named
            then validate_parameter path seen p place
            else report (error_at place name_required))
          & rest.0,
      rest.1,
    )

unfoldable pub undefined_path_params : Text → List Text → List Text → Issues
undefined_path_params prefix [] seen = silent
undefined_path_params prefix (n ∷ ns) seen =
    when (not (one_of n seen)) (error_at prefix path_parameter_undefined)
    & undefined_path_params prefix ns seen

unfoldable pub is_negative : ℤ → Bool
is_negative (pos n) = false
is_negative (negsuc n) = true

unfoldable pub validate_rate_limit : Option ValidationContext → RateLimitConfig → Text → Issues
unfolding is_set
validate_rate_limit ctx cfg prefix =
    let pool = filled cfg.pool in
    let inline = is_positive cfg.requests_per_second || (is_positive cfg.burst || filled cfg.key) in
    if pool && inline
    then report (error_at prefix pool_and_inline)
    else if not pool && not inline
    then report (error_at prefix pool_or_inline_required)
    else if pool
    then elim ctx [
      | none ↦ silent
      | some c ↦ when (not (is_set cfg.pool c.rate_limit_pools)) (error_at prefix unknown_pool)
    ]
    else when (not (is_positive cfg.requests_per_second)) (error_at prefix rate_not_positive)
      & when (not (is_positive cfg.burst)) (error_at prefix burst_not_positive)

unfoldable pub validate_rate_limits :
    Option ValidationContext → Text → ℕ → List RateLimitConfig → Issues
unfolding validate_rate_limit
validate_rate_limits ctx prefix i [] = silent
validate_rate_limits ctx prefix i (l ∷ ls) =
    validate_rate_limit ctx l (indexed prefix (codes "rate_limit") i)
    & validate_rate_limits ctx prefix (suc i) ls

module _ (lib : CronLibrary) where
  unfoldable pub validate_cache : Option TriggerCacheConfig → Text → Issues
  unfolding is_negative
  validate_cache none place = silent
  validate_cache (some c) place =
      if c.enabled
      then when (not (filled c.key)) (error_at place key_required)
        & (when (is_negative c.ttl_sec) (error_at place negative_ttl)
            & when (filled c.evict_cron && not (accepts_cron lib c.evict_cron))
                (error_at place invalid_evict_cron))
      else silent

  unfoldable pub validate_http_trigger : Option ValidationContext → TriggerConfig → Text → Issues
  unfolding validate_path validate_method names_set validate_parameters undefined_path_params
      validate_cache validate_rate_limits
  validate_http_trigger ctx cfg prefix =
      let path = names_set (extract_path_params cfg.path) [] in
      let checked = validate_parameters path prefix 0 cfg.parameters [] in
      validate_path cfg prefix
      & (validate_method cfg prefix
          & (checked.0
              & (undefined_path_params prefix path checked.1
                  & (validate_cache cfg.cache (prefix ++ codes ".cache")
                      & validate_rate_limits ctx prefix 0 cfg.rate_limit))))

  unfoldable pub validate_cron_trigger : TriggerConfig → Text → Issues
  validate_cron_trigger cfg prefix =
      (if filled cfg.schedule
        then when (not (accepts_cron lib cfg.schedule)) (error_at prefix invalid_schedule)
        else report (error_at prefix schedule_required))
      & (when (filled cfg.path) (warning_at prefix ignored_path)
          & (when (filled cfg.method) (warning_at prefix ignored_method)
              & when (elim cfg.cache [ none ↦ false | some _ ↦ true ])
                  (warning_at prefix ignored_cache)))

  unfoldable pub validate_trigger : Option ValidationContext → TriggerConfig → Text → Issues
  unfolding validate_http_trigger validate_cron_trigger
  validate_trigger ctx cfg prefix =
      if not (filled cfg.trigger_type)
      then report (error_at prefix type_required)
      else if text_eq cfg.trigger_type (codes "http")
      then validate_http_trigger ctx cfg prefix
      else if text_eq cfg.trigger_type (codes "cron")
      then validate_cron_trigger cfg prefix
      else report (error_at prefix invalid_type)
