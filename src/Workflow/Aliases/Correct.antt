-- ===== src/Workflow/Aliases/Correct.antt =====
-- The order that topoSortAliases in internal/workflow/compile.go gives.
use sqlproxy.Prelude.{
  suc, ◌⊎◌, ◌↔◌, ◌≡◌, refl, sym, ap, ◌∙◌, inl, inr, arith, List, [], ◌∷◌, ◌++◌, reverse, Text, true,
  some, some-injective, Bool-cases, length, ◌==◌, ==_iff, Dict, lookup, Distinct, Result, ok, err,
  ok-injective,
}
use mathlib.Core.List.{append-nil, reverse-reverse}
use mathlib.Core.Path.{subst}
use sqlproxy.SqlUtil.Words.{contains_word}
use sqlproxy.Workflow.Aliases.{
  AliasError, bad_alias, Sorting, dict_keys, refs_of, build_deps, drain_queue, no_degrees,
  count_all, first_queue, start_sorting, finish_sorting, topo_sort_aliases,
}
use sqlproxy.Workflow.Aliases.Sums.{NoRepeat, Within, contains_all, All-contains_word}
use sqlproxy.Workflow.Aliases.Splits.{reverse-middle, contains_word-reverse, NoRepeat-reverse}
use sqlproxy.Workflow.Aliases.Rounds.{IsConsistent, IsAfterUses}
use sqlproxy.Workflow.Aliases.Drain.{drain_queue_returns}
use sqlproxy.Workflow.Aliases.Start.{start_sorting_lem}
use sqlproxy.Workflow.Aliases.Keys.{dict_keys-NoRepeat, lookup_there}
use sqlproxy.Workflow.Aliases.Refs.{
  refs_of-Within, IsBuilt, IsBad, Outcome, build_deps_lem, refs_of_all,
}
use sqlproxy.Workflow.Aliases.Order.{refs_behind}

finished :
    (names order : List Text) (s : Sorting)
    → finish_sorting names s ≡ ok order
    → (length s.sorted ≡ length names) × (order ≡ reverse s.sorted)
unfolding finish_sorting
finished names order s e = elim (Bool-cases (length s.sorted == length names)) [
  | inl l ↦ ((==_iff (length s.sorted) (length names)).0 l, sym (ok-injective (rw l at e)))
  | inr n ↦ absurd (let e' = rw n at e in cc)
]

module _ (identifiers : Text → Result Text (List Text)) where
  abbrev pub IsResult : Dict Text → Result AliasError (List Text) → Type 0
  IsResult aliases r = topo_sort_aliases identifiers aliases ≡ some r

  -- The sort ends, with the loop's invariant, or at an alias that does not parse.
  abbrev pub Ending : Dict Text → Type 0
  Ending aliases =
      ((deps : Dict (List Text)) × (s : Sorting) × IsBuilt identifiers (dict_keys aliases) aliases
          deps
        × IsConsistent (dict_keys aliases) deps [] s
        × (s.queue ≡ [])
        × IsResult aliases (finish_sorting (dict_keys aliases) s))
      ⊎ ((name e : Text) × IsBad identifiers (dict_keys aliases) aliases name e
          × IsResult aliases (err (bad_alias name e)))

  topo_built :
      (name source : Text) (aliases : Dict Text) (deps : Dict (List Text)) (s : Sorting)
      → build_deps identifiers (name ∷ dict_keys aliases) ((name, source) ∷ aliases) ≡ ok deps
      → drain_queue deps
          (suc (length (dict_keys aliases)))
          (start_sorting (name ∷ dict_keys aliases) deps)
        ≡ some s
      → IsResult ((name, source) ∷ aliases) (finish_sorting (name ∷ dict_keys aliases) s)
  unfolding topo_sort_aliases
  topo_built name source aliases deps s e r = rw (topo_sort_aliases, e, r) refl

  topo_bad :
      (name source : Text) (aliases : Dict Text) (e : AliasError)
      → build_deps identifiers (name ∷ dict_keys aliases) ((name, source) ∷ aliases) ≡ err e
      → IsResult ((name, source) ∷ aliases) (err e)
  unfolding topo_sort_aliases
  topo_bad name source aliases e b = rw (topo_sort_aliases, b) refl

  ends_built :
      (name source : Text) (aliases : Dict Text) (deps : Dict (List Text))
      → Distinct ((name, source) ∷ aliases)
      → build_deps identifiers (name ∷ dict_keys aliases) ((name, source) ∷ aliases) ≡ ok deps
      → IsBuilt identifiers (name ∷ dict_keys aliases) ((name, source) ∷ aliases) deps
      → Ending ((name, source) ∷ aliases)
  unfolding dict_keys
  ends_built name source aliases deps d e b =
      let names = name ∷ dict_keys aliases in
      let c =
        start_sorting_lem names deps (dict_keys-NoRepeat ((name, source) ∷ aliases) d) b.keys
          b.within in
      let (s, r, k, q) =
        drain_queue_returns names deps (λ n. refs_of-Within names deps n b.within) (length names)
          (start_sorting names deps) c (omega arith) in
      inl (deps, s, b, k, q, topo_built name source aliases deps s e r)

  ends_empty : Ending []
  unfolding dict_keys lookup topo_sort_aliases start_sorting finish_sorting count_all no_degrees
      first_queue
  ends_empty = inl (
    [],
    start_sorting [] [],
    record { keys = refl; within = tt; refs = λ x source e. absurd (cc (e)) },
    start_sorting_lem [] [] tt refl tt,
    refl,
    refl,
  )

  pub sort_ends : (aliases : Dict Text) → Distinct aliases → Ending aliases
  unfolding dict_keys
  sort_ends [] d = ends_empty
  sort_ends ((name, source) ∷ aliases) d =
      by_deps (build_deps_lem identifiers (name ∷ dict_keys aliases) ((name, source) ∷ aliases) d)
    where
      by_deps :
          Outcome identifiers (name ∷ dict_keys aliases) ((name, source) ∷ aliases)
          → Ending ((name, source) ∷ aliases)
      by_deps (inl (deps, e, b)) = ends_built name source aliases deps d e b
      by_deps (inr (k, m, e, bad)) = inr (k, m, bad, topo_bad name source aliases (bad_alias k m) e)

  -- The sort, where it gives an order.
  record IsSortedAs (aliases : Dict Text) (order : List Text) : Type 0 where
    deps : Dict (List Text)
    state : Sorting
    built : IsBuilt identifiers (dict_keys aliases) aliases deps
    consistent : IsConsistent (dict_keys aliases) deps [] state
    drained : state.queue ≡ []
    full : length state.sorted ≡ length (dict_keys aliases)
    reversed : order ≡ reverse state.sorted

  sorted_as :
      (aliases : Dict Text) (order : List Text)
      → Distinct aliases
      → IsResult aliases (ok order)
      → IsSortedAs aliases order
  sorted_as aliases order d e = by_ending (sort_ends aliases d)
    where
      by_ending : Ending aliases → IsSortedAs aliases order
      by_ending (inl (deps, s, b, c, q, r)) =
          let (l, v) = finished (dict_keys aliases) order s (some-injective (sym r ∙ e)) in
          record {
            deps = deps;
            state = s;
            built = b;
            consistent = c;
            drained = q;
            full = l;
            reversed = v;
          }
      by_ending (inr (k, m, bad, r)) = absurd (cc (r, e))

  module _ {aliases : Dict Text} {order : List Text} (s : IsSortedAs aliases order) where
    listed : (s.state).sorted ++ (s.state).queue ≡ (s.state).sorted
    listed = ap (λ q. (s.state).sorted ++ q) s.drained ∙ append-nil (s.state).sorted

    sorted_once : NoRepeat (s.state).sorted
    sorted_once = subst NoRepeat listed s.consistent.once

    sorted_known : Within (dict_keys aliases) (s.state).sorted
    sorted_known = subst (Within (dict_keys aliases)) listed s.consistent.known

    order_has :
        (k : Text) → contains_word (dict_keys aliases) k ≡ true → contains_word order k ≡ true
    order_has k h =
        ap (λ l. contains_word l k) s.reversed
        ∙ contains_word-reverse (s.state).sorted k
        ∙ contains_all (s.state).sorted (dict_keys aliases) k sorted_once sorted_known s.full h

    behind :
        (before after : List Text) (x r : Text)
        → order ≡ before ++ (x ∷ after)
        → contains_word (dict_keys aliases) x ≡ true
        → contains_word (refs_of s.deps x) r ≡ true
        → contains_word (dict_keys aliases) r ≡ true
        → contains_word before r ≡ true
    behind before after x r e h u n =
        let split =
          sym (reverse-reverse (s.state).sorted)
          ∙ ap reverse (sym s.reversed ∙ e)
          ∙ reverse-middle before after x in
        sym (contains_word-reverse before r)
        ∙ refs_behind (dict_keys aliases) s.deps (reverse after) (reverse before) x r
            (subst NoRepeat split sorted_once)
            (subst (Within (dict_keys aliases)) split sorted_known)
            (subst (IsAfterUses (dict_keys aliases) s.deps []) split s.consistent.ordered) h u
            (ap (λ l. contains_word l r) (sym split)
              ∙ contains_all (s.state).sorted (dict_keys aliases) r sorted_once sorted_known s.full
                  n)

    sorted_only :
        (k : Text) → contains_word order k ≡ true → contains_word (dict_keys aliases) k ≡ true
    sorted_only k h =
        All-contains_word (λ j. contains_word (dict_keys aliases) j ≡ true) (s.state).sorted k
          sorted_known
          (sym (contains_word-reverse (s.state).sorted k)
            ∙ ap (λ l. contains_word l k) (sym s.reversed)
            ∙ h)

  -- In an order that topo_sort_aliases gives, every alias that the expression of an alias names
  -- stands before that alias, if the aliases are distinct.
  pub topo_sort_aliases-dependencies_first :
      (aliases : Dict Text) (order before after : List Text) (x source d : Text) (ids : List Text)
      → Distinct aliases
      → topo_sort_aliases identifiers aliases ≡ some (ok order)
      → order ≡ before ++ (x ∷ after)
      → lookup x aliases ≡ some source
      → identifiers source ≡ ok ids
      → contains_word ids d ≡ true
      → contains_word (dict_keys aliases) d ≡ true
      → contains_word before d ≡ true
  topo_sort_aliases-dependencies_first aliases order before after x source d ids u e o l i h n =
      let s = sorted_as aliases order u e in
      behind s before after x d o (lookup_there x source aliases l)
        (refs_of_all identifiers (dict_keys aliases) s.built x source ids l i d h n) n

  -- If the aliases are distinct, an order that topo_sort_aliases gives has each alias once and
  -- nothing else.
  pub topo_sort_aliases_complete :
      (aliases : Dict Text) (order : List Text)
      → Distinct aliases
      → topo_sort_aliases identifiers aliases ≡ some (ok order)
      → NoRepeat order
        × ((k : Text)
            → (contains_word order k ≡ true) ↔ (contains_word (dict_keys aliases) k ≡ true))
  topo_sort_aliases_complete aliases order u e =
      let s = sorted_as aliases order u e in
      (
        rw s.reversed (NoRepeat-reverse (s.state).sorted (sorted_once s)),
        λ k. (sorted_only s k, order_has s k),
      )
