-- ===== src/Workflow/SqlParams/Search.antt =====
-- The search of extractSQLParams of internal/workflow/execute_query.go: which value a name gets.
use sqlproxy.Prelude.{
  ◌≡◌, refl, ◌∙◌, inl, inr, arith, List, [], ◌∷◌, map, Text, codes, true, false, ◌||◌, Option, none,
  some, Option-cases, Bool-cases, All, text_eq, text_eq_iff, Dict, lookup, or_else-none,
}
use sqlproxy.SqlUtil.Words.{contains_word}
use sqlproxy.Workflow.SqlParams.{
  param_names, text_lt, insert_sorted, sort_keys, within, trigger_param, first_field_of, value_of,
  extract_sql_params, lookup-bind_names,
}

text_lt_asym : (s t : Text) → text_lt s t ≡ true → text_lt t s ≡ false
unfolding text_lt
text_lt_asym s [] h = absurd (cc (h))
text_lt_asym [] (d ∷ t) h = refl
text_lt_asym (c ∷ s) (d ∷ t) h = ground (arith, text_lt_asym s t)

text_ge_trans : (s t u : Text) → text_lt s t ≡ false → text_lt t u ≡ false → text_lt s u ≡ false
unfolding text_lt
text_ge_trans s t [] h g = refl
text_ge_trans s [] (e ∷ u) h g = absurd (cc (g))
text_ge_trans [] (d ∷ t) (e ∷ u) h g = absurd (cc (h))
text_ge_trans (c ∷ s) (d ∷ t) (e ∷ u) h g = ground (arith, text_ge_trans s t u)

-- Each key is at most those behind it.
abbrev IsSorted : List Text → Type 0
IsSorted [] = Unit
IsSorted (k ∷ ks) = All (λ j. text_lt j k ≡ false) ks × IsSorted ks

All-insert_sorted :
    (P : Text → Type 0) (k : Text) (ks : List Text) → P k → All P ks → All P (insert_sorted k ks)
unfolding insert_sorted
All-insert_sorted P k [] p a = (p, tt)
All-insert_sorted P k (j ∷ ks) p (q, a) = elim (Bool-cases (text_lt j k)) [
  | inl e ↦ rw e (q, All-insert_sorted P k ks p a)
  | inr e ↦ rw e (p, (q, a))
]

All-above :
    (k j : Text) (ks : List Text)
    → text_lt j k ≡ false
    → All (λ i. text_lt i j ≡ false) ks
    → All (λ i. text_lt i k ≡ false) ks
All-above k j [] h a = tt
All-above k j (i ∷ ks) h (b, a) = (text_ge_trans i j k b h, All-above k j ks h a)

insert_sorted-IsSorted : (k : Text) (ks : List Text) → IsSorted ks → IsSorted (insert_sorted k ks)
unfolding insert_sorted
insert_sorted-IsSorted k [] s = (tt, tt)
insert_sorted-IsSorted k (j ∷ ks) (a, s) = elim (Bool-cases (text_lt j k)) [
  | inl e ↦ rw e (
    All-insert_sorted (λ i. text_lt i j ≡ false) k ks (text_lt_asym j k e) a,
    insert_sorted-IsSorted k ks s,
  )
  | inr e ↦ rw e ((e, All-above k j ks e a), (a, s))
]

sort_keys-IsSorted : (ks : List Text) → IsSorted (sort_keys ks)
unfolding sort_keys
sort_keys-IsSorted [] = tt
sort_keys-IsSorted (k ∷ ks) = insert_sorted-IsSorted k (sort_keys ks) (sort_keys-IsSorted ks)

contains_word-insert_sorted :
    (k j : Text) (ks : List Text)
    → contains_word (insert_sorted k ks) j ≡ (text_eq k j || contains_word ks j)
unfolding contains_word insert_sorted
contains_word-insert_sorted k j [] = refl
contains_word-insert_sorted k j (i ∷ ks) = ground (arith, contains_word-insert_sorted k j ks)

contains_word-sort_keys :
    (j : Text) (ks : List Text) → contains_word (sort_keys ks) j ≡ contains_word ks j
unfolding contains_word sort_keys
contains_word-sort_keys j [] = refl
contains_word-sort_keys j (k ∷ ks) =
    contains_word-insert_sorted k j (sort_keys ks) ∙ rw (contains_word-sort_keys j ks) refl

module _ {Value : Type 0} (fields : Value → Option (Dict Value)) where
  lookup_contains :
      (k : Text) (v : Value) (m : Dict Value)
      → lookup k m ≡ some v
      → contains_word (map (λ e. e.0) m) k ≡ true
  unfolding lookup contains_word
  lookup_contains k v [] e = absurd (cc (e))
  lookup_contains k v ((j, w) ∷ m) e = ground (arith, e, lookup_contains k v m)

  -- A field of the map that the data hold under a key.
  abbrev pub HasField : Dict Value → Text → Text → Value → Type 0
  HasField data_map key name x =
      (v : Value) × (m : Dict Value) × (lookup key data_map ≡ some v)
      × (fields v ≡ some m)
      × (lookup name m ≡ some x)

  within_field :
      (key name : Text) (data_map : Dict Value) (x : Value)
      → within fields key name data_map ≡ some x
      → HasField data_map key name x
  unfolding within
  within_field key name data_map x h = elim (Option-cases (lookup key data_map)) [
    | inl e ↦ absurd (let h' = simp (within, e) at h in cc (h'))
    | inr (v, e) ↦ elim (Option-cases (fields v)) [
      | inl f ↦ absurd (let h' = simp (within, e, f) at h in cc (h'))
      | inr (m, f) ↦ (v, m, e, f, simp (within, e, f) at h)
    ]
  ]

  field_within :
      (key name : Text) (data_map : Dict Value) (x : Value)
      → HasField data_map key name x
      → within fields key name data_map ≡ some x
  unfolding within
  field_within key name data_map x (v, m, e, f, l) = simp (within, e, f) l

  -- A parameter of the trigger.
  abbrev pub HasTriggerParam : Dict Value → Text → Value → Type 0
  HasTriggerParam data_map name x =
      (v : Value) × (t : Dict Value) × (lookup (codes "trigger") data_map ≡ some v)
      × (fields v ≡ some t)
      × HasField t (codes "params") name x

  trigger_param_found :
      (name : Text) (data_map : Dict Value) (x : Value)
      → trigger_param fields name data_map ≡ some x
      → HasTriggerParam data_map name x
  unfolding trigger_param
  trigger_param_found name data_map x h = elim (Option-cases (lookup (codes "trigger") data_map)) [
    | inl e ↦ absurd (let h' = simp (trigger_param, e) at h in cc (h'))
    | inr (v, e) ↦ elim (Option-cases (fields v)) [
      | inl f ↦ absurd (let h' = simp (trigger_param, e, f) at h in cc (h'))
      | inr (t, f) ↦
          (v, t, e, f, within_field (codes "params") name t x (simp (trigger_param, e, f) at h))
    ]
  ]

  trigger_param_finds :
      (name : Text) (data_map : Dict Value) (x : Value)
      → HasTriggerParam data_map name x
      → trigger_param fields name data_map ≡ some x
  unfolding trigger_param
  trigger_param_finds name data_map x (v, t, e, f, h) =
      simp (trigger_param, e, f) (field_within (codes "params") name t x h)

  first_field_of-none :
      (name : Text) (data_map : Dict Value) (ks : List Text) (k : Text)
      → first_field_of fields name data_map ks ≡ none
      → contains_word ks k ≡ true
      → within fields k name data_map ≡ none
  unfolding first_field_of contains_word
  first_field_of-none name data_map [] k e h = absurd (cc (h))
  first_field_of-none name data_map (j ∷ ks) k e h =
      elim (Option-cases (within fields j name data_map)) [
        | inr (x, f) ↦ absurd (let e' = simp (first_field_of, f) at e in cc (e'))
        | inl f ↦ elim (Bool-cases (text_eq j k)) [
          | inl same ↦ rw (← (text_eq_iff j k).0 same) f
          | inr other ↦
              first_field_of-none name data_map ks k (simp (first_field_of, f) at e) (rw other at h)
        ]
      ]

  -- The key of the field that is found is the least.
  IsLeast : Text → Dict Value → List Text → Text → Type 0
  IsLeast name data_map ks k =
      (j : Text)
      → contains_word ks j ≡ true
      → text_lt j k ≡ true
      → within fields j name data_map ≡ none

  none_below :
      (ks : List Text) (k j : Text)
      → All (λ i. text_lt i k ≡ false) ks
      → contains_word ks j ≡ true
      → text_lt j k ≡ false
  unfolding contains_word
  none_below [] k j a h = absurd (cc (h))
  none_below (i ∷ ks) k j (b, a) h = elim (Bool-cases (text_eq i j)) [
    | inl same ↦ rw (← (text_eq_iff i j).0 same) b
    | inr other ↦ none_below ks k j a (rw other at h)
  ]

  text_lt_irrefl : (k : Text) → text_lt k k ≡ true → ⊥
  text_lt_irrefl k h = cc (h, text_lt_asym k k h)

  first_field_of-some :
      (name : Text) (data_map : Dict Value) (ks : List Text) (x : Value)
      → IsSorted ks
      → first_field_of fields name data_map ks ≡ some x
      → (k : Text) × (within fields k name data_map ≡ some x) × IsLeast name data_map ks k
  unfolding first_field_of contains_word IsLeast
  first_field_of-some name data_map [] x s e = absurd (cc (e))
  first_field_of-some name data_map (i ∷ ks) x (a, s) e =
      elim (Option-cases (within fields i name data_map)) [
        | inr (y, f) ↦ (
          i,
          f ∙ (simp (first_field_of, f) at e),
          λ j h l. elim (Bool-cases (text_eq i j)) [
            | inl same ↦ absurd (text_lt_irrefl j (rw ((text_eq_iff i j).0 same) at l))
            | inr other ↦ absurd (let above = none_below ks i j a (rw other at h) in cc (l, above))
          ],
        )
        | inl f ↦
            let (k, found, least) =
              first_field_of-some name data_map ks x s (simp (first_field_of, f) at e) in
            (
              k,
              found,
              λ j h l. elim (Bool-cases (text_eq i j)) [
                | inl same ↦ rw (← (text_eq_iff i j).0 same) f
                | inr other ↦ least j (rw other at h) l
              ],
            )
      ]

  module _ (data_map : Dict Value) (name : Text) where
    abbrev NoStepParam : Type 0
    NoStepParam = (y : Value) → ¬ HasField data_map (codes "params") name y

    abbrev NoTriggerParam : Type 0
    NoTriggerParam = (y : Value) → ¬ HasTriggerParam data_map name y

    -- Where the value of a name comes from: the params of the step, else those of the trigger, else
    -- the map under the least key that has the name, else the data themselves.
    pub data IsSearched : Option Value → Type 0 where
      of_step : (x : Value) → HasField data_map (codes "params") name x → IsSearched (some x)
      of_trigger : (x : Value) → NoStepParam → HasTriggerParam data_map name x → IsSearched (some x)
      of_field :
          (x : Value) (k : Text)
          → NoStepParam
          → NoTriggerParam
          → HasField data_map k name x
          → ((j : Text) (y : Value) → text_lt j k ≡ true → ¬ HasField data_map j name y)
          → IsSearched (some x)
      direct :
          (r : Option Value)
          → NoStepParam
          → NoTriggerParam
          → ((j : Text) (y : Value) → ¬ HasField data_map j name y)
          → r ≡ lookup name data_map
          → IsSearched r

    abbrev keys : List Text
    keys = sort_keys (map (λ e. e.0) data_map)

    -- a key with a field is among the sorted ones
    field_key : (j : Text) (y : Value) → HasField data_map j name y → contains_word keys j ≡ true
    field_key j y (v, m, e, f, l) =
        contains_word-sort_keys j (map (λ e. e.0) data_map) ∙ lookup_contains j v data_map e

    value_of-IsSearched : IsSearched (value_of fields data_map name)
    unfolding value_of IsLeast
    value_of-IsSearched = elim (Option-cases (within fields (codes "params") name data_map)) [
      | inr (x, p) ↦
          simp (value_of, p) (of_step x (within_field (codes "params") name data_map x p))
      | inl p ↦
          let no_step : NoStepParam =
            λ y f. (let p' = field_within (codes "params") name data_map y f in cc (p, p')) in
          elim (Option-cases (trigger_param fields name data_map)) [
            | inr (x, t) ↦
                simp (value_of, p, t) (of_trigger x no_step (trigger_param_found name data_map x t))
            | inl t ↦
                let no_trigger : NoTriggerParam =
                  λ y f. (let t' = trigger_param_finds name data_map y f in cc (t, t')) in
                elim (Option-cases (first_field_of fields name data_map keys)) [
                  | inr (x, g) ↦
                      let (k, found, least) =
                        first_field_of-some name data_map keys x
                          (sort_keys-IsSorted (map (λ e. e.0) data_map)) g in
                      simp (value_of, p, t, g)
                        (of_field x k no_step no_trigger (within_field k name data_map x found)
                          λ j y l f.
                            (let gone = least j (field_key j y f) l in
                              let there = field_within j name data_map y f in cc (gone, there)))
                  | inl g ↦
                      simp (value_of, p, t, g)
                        (direct (lookup name data_map) no_step no_trigger
                          (λ j y f.
                            (let gone =
                                first_field_of-none name data_map keys j g (field_key j y f) in
                              let there = field_within j name data_map y f in cc (gone, there)))
                          refl)
                ]
          ]
    ]

    -- A name that a statement mentions is bound to the params of the step for it; where these lack
    -- it, to the params of the trigger; where these lack it too, to the field of the map under the
    -- least key that has it; and else to the data under the name, or not at all where they lack
    -- it. A name that the statement does not mention is not bound.
    pub lookup-extract_sql_params :
        (sql other : Text)
        → contains_word (param_names sql) name ≡ true
        → contains_word (param_names sql) other ≡ false
        → IsSearched (lookup name (extract_sql_params fields sql data_map))
          × (lookup other (extract_sql_params fields sql data_map) ≡ none)
    unfolding extract_sql_params lookup
    lookup-extract_sql_params sql other here absent =
        let bound =
          lookup-bind_names fields data_map (param_names sql) [] name
          ∙ rw (here, or_else-none (value_of fields data_map name)) refl in
        let gone = lookup-bind_names fields data_map (param_names sql) [] other ∙ rw absent refl in
        (rw bound value_of-IsSearched, gone)
