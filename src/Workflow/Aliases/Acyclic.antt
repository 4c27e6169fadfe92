-- ===== src/Workflow/Aliases/Acyclic.antt =====
-- Aliases without a circle, in topoSortAliases of internal/workflow/compile.go.
use sqlproxy.Prelude.{
  ℕ, zero, suc, ◌+◌, ◌≤◌, ◌<◌, ◌⊎◌, ◌≡◌, refl, sym, ap, ◌∙◌, inl, inr, arith, List, [], ◌++◌,
  reverse, Text, true, false, some, Bool-cases, length, ==_iff, Dict, lookup, Distinct, Result, ok,
  err, pos,
}
use mathlib.Core.List.{append-nil}
use mathlib.Core.Path.{subst}
use sqlproxy.SqlUtil.Words.{contains_word}
use sqlproxy.Workflow.Aliases.{
  bad_alias, Sorting, dict_keys, refs_of, finish_sorting, topo_sort_aliases,
}
use sqlproxy.Workflow.Aliases.Sums.{
  NoRepeat, Within, Within-contains_word, sum_over, length_le, All-contains_word, part_le,
}
use sqlproxy.Workflow.Aliases.Splits.{one_missing}
use sqlproxy.Workflow.Aliases.Rounds.{count, referred, IsConsistent}
use sqlproxy.Workflow.Aliases.Keys.{dict_keys-NoRepeat, there_lookup}
use sqlproxy.Workflow.Aliases.Refs.{refs_of-Within, IsBuilt, refs_of_only}
use sqlproxy.Workflow.Aliases.Order.{count_contains}
use sqlproxy.Workflow.Aliases.Correct.{Ending, sort_ends}

finish_full :
    (names : List Text) (s : Sorting)
    → length s.sorted ≡ length names
    → finish_sorting names s ≡ ok (reverse s.sorted)
unfolding finish_sorting
finish_full names s e = rw ((==_iff (length s.sorted) (length names)).1 e) refl

module _ (names : List Text) (deps : Dict (List Text)) (rank : Text → ℕ)
    (falls : (x d : Text)
      → contains_word names x ≡ true
      → contains_word (refs_of deps x) d ≡ true
      → rank d < rank x)
    (once : NoRepeat names) (s : Sorting) (c : IsConsistent names deps [] s)
    (q : s.queue ≡ []) where
  listed : s.sorted ++ s.queue ≡ s.sorted
  listed = ap (λ q. s.sorted ++ q) q ∙ append-nil s.sorted

  -- a name that is left has another left that refers to it
  user_left :
      (x : Text)
      → contains_word names x ≡ true
      → contains_word s.sorted x ≡ false
      → (k : Text) × (contains_word names k ≡ true)
        × (contains_word s.sorted k ≡ false)
        × (0 < count x (refs_of deps k))
  user_left x h l =
      let (r, e, sum) = c.degree x h in
      one_missing (λ n. count x (refs_of deps n)) s.sorted names once (positive r e sum)
    where
      positive :
          (r : ℕ)
          → lookup x s.degrees ≡ some (pos r)
          → r + referred names deps x s.sorted ≡ referred names deps x names + 0
          → referred names deps x s.sorted < referred names deps x names
      positive (suc r) e sum = omega arith
      positive zero e sum =
          absurd (let f = ap (λ l. contains_word l x) (sym listed) ∙ c.found x h e in cc)

  top : ℕ
  top = sum_over rank names

  reached :
      (k : ℕ) (x : Text)
      → contains_word names x ≡ true
      → top ≤ rank x + k
      → contains_word s.sorted x ≡ true
  unfolding top
  reached zero x h b = by_place (Bool-cases (contains_word s.sorted x))
    where
      by_place :
          (contains_word s.sorted x ≡ true) ⊎ (contains_word s.sorted x ≡ false)
          → contains_word s.sorted x ≡ true
      by_place (inl i) = i
      by_place (inr l) = absurd (
          let (k, n, m, u) = user_left x h l in
          omega (arith, part_le rank k names n, falls k x n (count_contains x (refs_of deps k) u)))
  reached (suc j) x h b = by_place (Bool-cases (contains_word s.sorted x)) (reached j)
    where
      by_place :
          (contains_word s.sorted x ≡ true) ⊎ (contains_word s.sorted x ≡ false)
          → ((y : Text)
              → contains_word names y ≡ true
              → sum_over rank names ≤ rank y + j
              → contains_word s.sorted y ≡ true)
          → contains_word s.sorted x ≡ true
      by_place (inl i) ih = i
      by_place (inr l) ih = absurd (
          let (k, n, m, u) = user_left x h l in
          let less = falls k x n (count_contains x (refs_of deps k) u) in
          let there = ih k n (omega arith) in cc)

  all_reached : length s.sorted ≡ length names
  unfolding top
  all_reached =
      let upper =
        length_le s.sorted names (subst NoRepeat listed c.once)
          (subst (Within names) listed c.known) in
      let lower =
        length_le names s.sorted once
          (Within-contains_word s.sorted names (λ x h. reached top x h (omega arith))) in
      omega arith

module _ (identifiers : Text → Result Text (List Text)) where
  -- The rank of each alias is above that of what its expression refers to.
  abbrev pub IsRanked : Dict Text → (Text → ℕ) → Type 0
  IsRanked aliases rank =
      (x source d : Text) (ids : List Text)
      → lookup x aliases ≡ some source
      → identifiers source ≡ ok ids
      → contains_word ids d ≡ true
      → contains_word (dict_keys aliases) d ≡ true
      → rank d < rank x

  -- an order, or an alias whose expression does not parse
  abbrev pub Sorts : Dict Text → Type 0
  Sorts aliases =
      ((order : List Text) × (topo_sort_aliases identifiers aliases ≡ some (ok order)))
      ⊎ ((name source e : Text) × (lookup name aliases ≡ some source)
          × (identifiers source ≡ err e)
          × (topo_sort_aliases identifiers aliases ≡ some (err (bad_alias name e))))

  falls_built :
      (aliases : Dict Text) (deps : Dict (List Text)) (rank : Text → ℕ)
      → IsRanked aliases rank
      → IsBuilt identifiers (dict_keys aliases) aliases deps
      → (x d : Text) → contains_word (dict_keys aliases) x ≡ true
      → contains_word (refs_of deps x) d ≡ true
      → rank d < rank x
  falls_built aliases deps rank r b x d h m =
      let (source, l) = there_lookup x aliases h in
      let (ids, i, e) = b.refs x source l in
      r x source d ids l i (refs_of_only identifiers (dict_keys aliases) b x source ids l i d m) (
        All-contains_word (λ k. contains_word (dict_keys aliases) k ≡ true) (refs_of deps x) d
          (refs_of-Within (dict_keys aliases) deps x b.within) m)

  -- If the aliases are distinct and have ranks, that of each alias above those of the aliases that
  -- its expression names, the sort ends within its rounds with an order, or with the error of an
  -- alias whose expression does not parse.
  pub topo_sort_aliases_acyclic :
      (aliases : Dict Text) (rank : Text → ℕ)
      → Distinct aliases
      → IsRanked aliases rank
      → Sorts aliases
  topo_sort_aliases_acyclic aliases rank u r = by_ending (sort_ends identifiers aliases u)
    where
      by_ending : Ending identifiers aliases → Sorts aliases
      by_ending (inl (deps, s, b, c, q, e)) =
          let full =
            all_reached (dict_keys aliases) deps rank (falls_built aliases deps rank r b)
              (dict_keys-NoRepeat aliases u) s c q in
          inl (reverse s.sorted, e ∙ ap some (finish_full (dict_keys aliases) s full))
      by_ending (inr (k, m, (source, l, i), e)) = inr (k, source, m, l, i, e)
