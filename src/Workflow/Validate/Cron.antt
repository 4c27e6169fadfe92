-- ===== src/Workflow/Validate/Cron.antt =====
-- The schedules that internal/workflow/validate.go accepts.
use sqlproxy.Prelude.{
  ◌%◌, ◌≡◌, refl, sym, ◌∙◌, [], ◌∷◌, Text, codes, Bool, true, false, ◌||◌, Option, none, some,
  Option-cases, Bool-cases, inl, inr, drop, ltb, ◌==◌, if◌then◌else◌, has_prefix, Result, ok, err,
  ◌>>=◌, ℤ, pos, negsuc,
}
use sqlproxy.SqlUtil.Words.{trim_space}

-- cron.ParseStandard, whether it accepts, and time.ParseDuration in nanoseconds.
pub record CronLibrary : Type 0 where
  pub parse_standard : Text → Bool
  pub parse_duration : Text → Option ℤ

pub data CronError : Type 0 where
  no_schedule bad_schedule below_minimum not_whole_seconds : CronError

-- expr[strings.Index(expr, " "):]
unfoldable pub from_space : Text → Option Text
from_space [] = none
from_space (c ∷ s) = let rest = from_space s in if c == b' ' then some (c ∷ s) else rest

unfoldable pub has_tz_prefix : Text → Bool
has_tz_prefix e = has_prefix e (codes "TZ=") || has_prefix e (codes "CRON_TZ=")

unfoldable pub split_tz_prefix : Text → Result CronError Text
unfolding has_tz_prefix
split_tz_prefix e =
    if has_tz_prefix e
    then elim (from_space e) [ none ↦ err no_schedule | some s ↦ ok (trim_space s) ]
    else ok e

-- the two tests of an interval, of a duration in nanoseconds
unfoldable pub check_interval : ℤ → Result CronError (Unit {0})
check_interval (negsuc n) = err below_minimum
check_interval (pos n) =
    if ltb n 1000000000
    then err below_minimum
    else if n % 1000000000 == 0
    then ok tt
    else err not_whole_seconds

module _ (lib : CronLibrary) where
  unfoldable pub validate_every_interval : Text → Result CronError (Unit {0})
  unfolding check_interval
  validate_every_interval e =
      if has_prefix e (codes "@every ")
      then elim (lib.parse_duration (drop 7 e)) [ none ↦ ok tt | some d ↦ check_interval d ]
      else ok tt

  unfoldable pub validate_cron_expr : Text → Result CronError (Unit {0})
  unfolding split_tz_prefix validate_every_interval
  validate_cron_expr e = split_tz_prefix e >>= λ schedule.
      if lib.parse_standard e then validate_every_interval schedule else err bad_schedule

  unfoldable pub accepts_cron : Text → Bool
  accepts_cron e = elim (validate_cron_expr e) [ ok _ ↦ true | err _ ↦ false ]

-- The texts on which ParseStandard panics: a time zone and no space after it.
abbrev pub Panics : Text → Type 0
Panics e = (has_tz_prefix e ≡ true) × (from_space e ≡ none)

validate_every_interval_agree :
    (l1 l2 : CronLibrary)
    → ((s : Text) → l1.parse_duration s ≡ l2.parse_duration s)
    → (s : Text) → validate_every_interval l1 s ≡ validate_every_interval l2 s
unfolding validate_every_interval
validate_every_interval_agree l1 l2 d s = rw (d (drop 7 s)) refl

-- The result for a schedule depends on the cron parser only at texts that are no time zone without
-- a space, on which that parser panics: two parsers that agree elsewhere give the same result.
pub validate_cron_expr_avoids :
    (l1 l2 : CronLibrary)
    → ((s : Text) → l1.parse_duration s ≡ l2.parse_duration s)
    → ((s : Text) → ¬ Panics s → l1.parse_standard s ≡ l2.parse_standard s)
    → (e : Text) → validate_cron_expr l1 e ≡ validate_cron_expr l2 e
unfolding validate_cron_expr split_tz_prefix
validate_cron_expr_avoids l1 l2 d p e = elim (Bool-cases (has_tz_prefix e)) [
  | inl zoned ↦ elim (Option-cases (from_space e)) [
    | inl missing ↦ rw (zoned, missing) refl
    | inr (s, found) ↦
        let same : l1.parse_standard e ≡ l2.parse_standard e =
          p e (λ h. let never = sym found ∙ h.1 in cc) in
        rw (zoned, found, same, validate_every_interval_agree l1 l2 d (trim_space s)) refl
  ]
  | inr plain ↦
      let same : l1.parse_standard e ≡ l2.parse_standard e =
        p e (λ h. let never = sym plain ∙ h.0 in cc) in
      rw (plain, same, validate_every_interval_agree l1 l2 d e) refl
]
