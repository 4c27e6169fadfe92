-- ===== src/Workflow/Aliases/Refs.antt =====
-- The references that topoSortAliases in internal/workflow/compile.go finds for each alias.
use sqlproxy.Prelude.{
  ◌⊎◌, ◌≡◌, refl, sym, ap, ◌∙◌, inl, inr, arith, List, [], ◌∷◌, Text, true, false, not, ◌&&◌, some,
  some-injective, Bool-cases, text_eq, text_eq_iff, text_eq_refl, Dict, lookup, Distinct, Result,
  ok, err, ok-injective,
}
use mathlib.Core.Path.{subst}
use sqlproxy.SqlUtil.Words.{contains_word}
use sqlproxy.Workflow.Aliases.{
  bad_alias, find_refs, dict_keys, extract_alias_refs, build_deps, refs_of,
}
use sqlproxy.Workflow.Aliases.Sums.{Within}
use sqlproxy.Workflow.Aliases.Start.{AreWithin, refs_of-cons}
use sqlproxy.Workflow.Aliases.Keys.{lookup_behind, lookup_front, lookup_missing}

find_refs-Within : (names seen ids : List Text) → Within names (find_refs names seen ids)
unfolding find_refs
find_refs-Within names seen [] = tt
find_refs-Within names seen (id ∷ ids) =
    elim (Bool-cases (contains_word names id && not (contains_word seen id))) [
      | inl e ↦ rw e (ground (arith, e), find_refs-Within names (id ∷ seen) ids)
      | inr e ↦ rw e (find_refs-Within names seen ids)
    ]

-- an identifier that is an alias, not seen before
find_refs_all :
    (names seen ids : List Text) (d : Text)
    → contains_word ids d ≡ true
    → contains_word names d ≡ true
    → contains_word seen d ≡ false
    → contains_word (find_refs names seen ids) d ≡ true
unfolding contains_word find_refs
find_refs_all names seen [] d h n s = h
find_refs_all names seen (id ∷ ids) d h n s = elim (Bool-cases (text_eq id d)) [
  | inl e ↦ let e' = (text_eq_iff id d).0 e in rw (e', n, s, text_eq_refl d) refl
  | inr e ↦ ground (arith, find_refs_all names seen ids d, find_refs_all names (id ∷ seen) ids d)
]

find_refs_only :
    (names seen ids : List Text) (d : Text)
    → contains_word (find_refs names seen ids) d ≡ true
    → contains_word ids d ≡ true
unfolding contains_word find_refs
find_refs_only names seen [] d h = h
find_refs_only names seen (id ∷ ids) d h =
    ground (arith, find_refs_only names seen ids d, find_refs_only names (id ∷ seen) ids d)

refs_of-nil : (n : Text) → refs_of [] n ≡ []
unfolding refs_of lookup
refs_of-nil n = refl

pub refs_of-Within :
    (names : List Text) (deps : Dict (List Text)) (n : Text)
    → AreWithin names deps
    → Within names (refs_of deps n)
refs_of-Within names [] n w = subst (Within names) (sym (refs_of-nil n)) tt
refs_of-Within names ((k, refs) ∷ deps) n (h, w) = elim (Bool-cases (text_eq k n)) [
  | inl e ↦ rw (refs_of-cons k n refs deps, e) h
  | inr e ↦ rw (refs_of-cons k n refs deps, e) (refs_of-Within names deps n w)
]

module _ (identifiers : Text → Result Text (List Text)) (names : List Text) where
  -- refs is what the expression refers to
  abbrev pub AreRefs : Text → List Text → Type 0
  AreRefs source refs =
      (ids : List Text) × (identifiers source ≡ ok ids) × (refs ≡ find_refs names [] ids)

  pub record IsBuilt (aliases : Dict Text) (deps : Dict (List Text)) : Type 0 where
    pub keys : dict_keys deps ≡ dict_keys aliases
    pub within : AreWithin names deps
    pub refs : (x source : Text) → lookup x aliases ≡ some source → AreRefs source (refs_of deps x)

  abbrev pub IsBad : Dict Text → Text → Text → Type 0
  IsBad aliases name e =
      (source : Text) × (lookup name aliases ≡ some source) × (identifiers source ≡ err e)

  IsBuilt-cons :
      (name source : Text) (refs : List Text) (aliases : Dict Text) (deps : Dict (List Text))
      → AreRefs source refs
      → IsBuilt aliases deps
      → IsBuilt ((name, source) ∷ aliases) ((name, refs) ∷ deps)
  unfolding dict_keys lookup
  IsBuilt-cons name source refs aliases deps (ids, i, r) b = record {
    keys = ap (λ l. name ∷ l) b.keys;
    within = (rw r (find_refs-Within names [] ids), b.within);
    refs = λ x s e. elim (Bool-cases (text_eq name x)) [
      | inl y ↦
          let same : source ≡ s = some-injective (rw y at e) in
          (ids, rw (← same) i, refs_of-cons name x refs deps ∙ rw y r)
      | inr n ↦
          let (ids', i', r') = b.refs x s (rw n at e) in
          (ids', i', refs_of-cons name x refs deps ∙ rw n r')
    ];
  }

  abbrev pub Outcome : Dict Text → Type 0
  Outcome aliases =
      ((deps : Dict (List Text)) × (build_deps identifiers names aliases ≡ ok deps)
        × IsBuilt aliases deps)
      ⊎ ((name e : Text) × (build_deps identifiers names aliases ≡ err (bad_alias name e))
          × IsBad aliases name e)

  build_step :
      (name source : Text) (aliases : Dict Text)
      → (contains_word (dict_keys aliases) name ≡ false)
      → Outcome aliases
      → Outcome ((name, source) ∷ aliases)
  unfolding build_deps extract_alias_refs
  build_step name source aliases n o = by_parse (identifiers source) refl o
    where
      by_parse :
          (p : Result Text (List Text))
          → identifiers source ≡ p
          → Outcome aliases
          → Outcome ((name, source) ∷ aliases)
      by_parse (err e) i o = inr (
        name,
        e,
        simp (build_deps, extract_alias_refs, i),
        (source, lookup_front name source aliases, i),
      )
      by_parse (ok ids) i (inl (deps, b, built)) = inl (
        (name, find_refs names [] ids) ∷ deps,
        simp (build_deps, extract_alias_refs, i, b),
        IsBuilt-cons name source (find_refs names [] ids) aliases deps (ids, i, refl) built,
      )
      by_parse (ok ids) i (inr (k, e, b, (s, l, f))) = inr (
        k,
        e,
        simp (build_deps, extract_alias_refs, i, b),
        (s, lookup_behind name k source s aliases n l, f),
      )

  pub build_deps_lem : (aliases : Dict Text) → Distinct aliases → Outcome aliases
  unfolding build_deps dict_keys lookup
  build_deps_lem [] d =
      inl ([], refl, record { keys = refl; within = tt; refs = λ x source e. absurd (cc (e)) })
  build_deps_lem ((name, source) ∷ aliases) (n, d) =
      build_step name source aliases (lookup_missing name aliases n) (build_deps_lem aliases d)

  -- the references of an alias, as what its expression names
  module _ {aliases : Dict Text} {deps : Dict (List Text)} (b : IsBuilt aliases deps)
      (x source : Text) (ids : List Text) (l : lookup x aliases ≡ some source)
      (i : identifiers source ≡ ok ids) (d : Text) where
    refs_found : refs_of deps x ≡ find_refs names [] ids
    refs_found =
        let (ids', i', r) = b.refs x source l in
        let same : ids' ≡ ids = ok-injective (sym i' ∙ i) in
        subst (λ is. refs_of deps x ≡ find_refs names [] is) same r

    pub refs_of_all :
        contains_word ids d ≡ true
        → contains_word names d ≡ true
        → contains_word (refs_of deps x) d ≡ true
    unfolding contains_word
    refs_of_all h n = ap (λ r. contains_word r d) refs_found ∙ find_refs_all names [] ids d h n refl

    pub refs_of_only : contains_word (refs_of deps x) d ≡ true → contains_word ids d ≡ true
    refs_of_only h =
        find_refs_only names [] ids d (ap (λ r. contains_word r d) (sym refs_found) ∙ h)
