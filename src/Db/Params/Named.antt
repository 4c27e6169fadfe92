-- ===== src/Db/Params/Named.antt =====
-- Each name of a statement is bound once by SQL Server's and SQLite's drivers of internal/db.
use sqlproxy.Prelude.{
  ◌≡◌, refl, ◌∙◌, inl, inr, arith, List, [], ◌∷◌, Text, not, ◌&&◌, none, some, Bool-cases,
  if◌then◌else◌, text_eq_iff, text_eq_refl, Dict, lookup, Distinct,
}
use sqlproxy.SqlUtil.Words.{contains_word}
use sqlproxy.Db.Params.{query_names, value_or_nil, named_args, build_args}

module _ {Value : Type 0} (nothing : Value) (params : Dict Value) where
  lookup-named_args :
      (added names : List Text) (k : Text)
      → lookup k (named_args nothing params added names) ≡ (
          if contains_word names k && not (contains_word added k)
          then some (value_or_nil nothing params k)
          else none)
  unfolding named_args lookup contains_word
  lookup-named_args added [] k = refl
  lookup-named_args added (n ∷ names) k = elim (Bool-cases (contains_word added n)) [
    | inl e ↦
        simp (named_args, e) (ground (arith, e, text_eq_iff n k, lookup-named_args added names k))
    | inr e ↦
        simp (named_args, e)
          (ground (arith, e, text_eq_iff n k, lookup-named_args (n ∷ added) names k))
  ]

  named_args-Distinct : (added names : List Text) → Distinct (named_args nothing params added names)
  unfolding named_args contains_word
  named_args-Distinct added [] = tt
  named_args-Distinct added (n ∷ names) = elim (Bool-cases (contains_word added n)) [
    | inl e ↦ simp (named_args, e) (named_args-Distinct added names)
    | inr e ↦
        simp (named_args, e)
          (
            lookup-named_args (n ∷ added) names n ∙ ground (arith, text_eq_refl n),
            named_args-Distinct (n ∷ added) names,
          )
  ]

  -- The names of the statement are bound once each, with their values.
  pub lookup-build_args :
      (query : Text)
      → Distinct (build_args nothing params query)
        × ((k : Text)
            → lookup k (build_args nothing params query) ≡ (
                if contains_word (query_names query) k
                then some (value_or_nil nothing params k)
                else none))
  unfolding build_args contains_word
  lookup-build_args query = (
    named_args-Distinct [] (query_names query),
    λ k. lookup-named_args [] (query_names query) k ∙ ground arith,
  )
