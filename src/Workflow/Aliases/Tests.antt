-- ===== src/Workflow/Aliases/Tests.antt =====
-- Runs of topoSortAliases in internal/workflow/compile.go.
use sqlproxy.Prelude.{
  ℕ, ◌<◌, ◌↔◌, ◌⊎◌, ◌≡◌, refl, sym, ap, ◌∙◌, inl, inr, arith, List, [], ◌∷◌, Text, codes, true,
  false, some, some-injective, Bool-cases, if◌then◌else◌, text_eq, text_eq_iff, Dict, lookup,
  insert, Distinct, Result, ok, err, ok-injective,
}
use mathlib.Core.Path.{subst}
use sqlproxy.SqlUtil.Words.{contains_word}
use sqlproxy.Workflow.Aliases.{bad_alias, circular, dict_keys, topo_sort_aliases}
use sqlproxy.Workflow.Aliases.Sums.{NoRepeat}
use sqlproxy.Workflow.Aliases.Correct.{
  topo_sort_aliases-dependencies_first, topo_sort_aliases_complete,
}
use sqlproxy.Workflow.Aliases.Acyclic.{IsRanked, Sorts, topo_sort_aliases_acyclic}

-- a language of sums, where each letter is an identifier, without brackets
abbrev letters : Text → List Text
letters [] = []
letters (c ∷ cs) = (c ∷ []) ∷ letters cs

abbrev read_sum : Text → Result Text (List Text)
read_sum s = if contains_word (letters s) (codes "(") then err (codes "bracket") else ok (letters s)

abbrev prices : Dict Text
prices = (codes "n", codes "x") ∷ (codes "a", codes "t+n") ∷ (codes "t", codes "n+n") ∷ []

abbrev prices_order : List Text
prices_order = codes "n" ∷ codes "t" ∷ codes "a" ∷ []

run : Unit {0}
unfolding contains_word text_eq lookup insert dict_keys topo_sort_aliases
run = tt

prices_sorted : topo_sort_aliases read_sum prices ≡ some (ok prices_order)
unfolding run
prices_sorted = refl

circle :
    topo_sort_aliases read_sum
      ((codes "a", codes "b") ∷ (codes "b", codes "a") ∷ (codes "c", codes "a") ∷ [])
    ≡ some (err (circular (codes "a" ∷ codes "b" ∷ [])))
unfolding run
circle = refl

broken :
    topo_sort_aliases read_sum ((codes "a", codes "b") ∷ (codes "b", codes "(") ∷ [])
    ≡ some (err (bad_alias (codes "b") (codes "bracket")))
unfolding run
broken = refl

prices-Distinct : Distinct prices
unfolding run
prices-Distinct = (refl, (refl, (refl, tt)))

topo_sort_aliases-dependencies_first_example : contains_word (codes "n" ∷ []) (codes "n") ≡ true
unfolding run
topo_sort_aliases-dependencies_first_example =
    topo_sort_aliases-dependencies_first read_sum prices prices_order (codes "n" ∷ [])
      (codes "a" ∷ []) (codes "t") (codes "n+n") (codes "n") (letters (codes "n+n")) prices-Distinct
      prices_sorted refl refl refl refl refl

topo_sort_aliases_complete_example :
    NoRepeat prices_order
    × ((k : Text)
        → (contains_word prices_order k ≡ true) ↔ (contains_word (dict_keys prices) k ≡ true))
topo_sort_aliases_complete_example =
    topo_sort_aliases_complete read_sum prices prices_order prices-Distinct prices_sorted

abbrev two : Dict Text
two = (codes "a", codes "b") ∷ (codes "b", codes "x") ∷ []

abbrev two_rank : Text → ℕ
two_rank x = if text_eq x (codes "b") then 0 else 1

two-Distinct : Distinct two
unfolding run
two-Distinct = (refl, (refl, tt))

-- the one identifier of the expression of each
only_letter :
    (source d : Text) (ids : List Text) (c : Text)
    → source ≡ c
    → read_sum c ≡ ok (c ∷ [])
    → read_sum source ≡ ok ids
    → contains_word ids d ≡ true
    → c ≡ d
unfolding contains_word
only_letter source d ids c e r i h =
    let same : c ∷ [] ≡ ids = ok-injective (sym r ∙ ap read_sum (sym e) ∙ i) in
    let there : contains_word (c ∷ []) d ≡ true = ap (λ l. contains_word l d) same ∙ h in
    (text_eq_iff c d).0 (ground arith)

two-IsRanked : IsRanked read_sum two two_rank
unfolding run
two-IsRanked x source d ids l i h n =
    by_key (Bool-cases (text_eq (codes "a") x)) (Bool-cases (text_eq (codes "b") x))
  where
    by_key :
        (text_eq (codes "a") x ≡ true) ⊎ (text_eq (codes "a") x ≡ false)
        → (text_eq (codes "b") x ≡ true) ⊎ (text_eq (codes "b") x ≡ false)
        → two_rank d < two_rank x
    by_key (inl a) b =
        let is_b =
          only_letter source d ids (codes "b") (sym (some-injective (rw a at l))) refl i h in
        subst (λ y. two_rank d < two_rank y) ((text_eq_iff (codes "a") x).0 a)
          (subst (λ y. two_rank y < 1) is_b (omega arith))
    by_key (inr a) (inl b) = absurd (
        let is_x =
          only_letter source d ids (codes "x") (sym (some-injective (rw (a, b) at l))) refl i h in
        let known = subst (λ y. contains_word (dict_keys two) y ≡ true) (sym is_x) n in cc (known))
    by_key (inr a) (inr b) = absurd (let missing = rw (a, b) at l in cc (missing))

topo_sort_aliases_acyclic_example : Sorts read_sum two
topo_sort_aliases_acyclic_example =
    topo_sort_aliases_acyclic read_sum two two_rank two-Distinct two-IsRanked
