-- ===== src/Workflow/Aliases.antt =====
-- The order of the condition aliases in internal/workflow/compile.go: extractAliasRefs and
-- topoSortAliases.
pub mod Sums
pub mod Splits
pub mod Rounds
pub mod Release
pub mod Drain
pub mod Keys
pub mod Queue
pub mod Start
pub mod Refs
pub mod Order
pub mod Correct
pub mod Acyclic
mod Tests
use sqlproxy.Prelude.{
  ℕ, zero, suc, List, [], ◌∷◌, ◌++◌, reverse, Text, Bool, true, false, not, ◌&&◌, ◌||◌, Option,
  none, some, length, ◌==◌, if◌then◌else◌, Dict, lookup, insert, Result, ok, err, ℤ, pos, negsuc,
}
use sqlproxy.SqlUtil.Words.{contains_word}

pub data AliasError : Type 0 where
  bad_alias : Text → Text → AliasError
  circular : List Text → AliasError

-- aliasRefFinder: the identifiers that are aliases, each once
unfoldable pub find_refs : List Text → List Text → List Text → List Text
find_refs names seen [] = []
find_refs names seen (id ∷ ids) =
    let found = id ∷ find_refs names (id ∷ seen) ids in
    let skipped = find_refs names seen ids in
    if contains_word names id && not (contains_word seen id) then found else skipped

unfoldable pub dict_keys : {V : Type 0} → Dict V → List Text
dict_keys [] = []
dict_keys ((k, v) ∷ m) = k ∷ dict_keys m

-- `identifiers` is the parser of expressions and the walk over its tree.
module _ (identifiers : Text → Result Text (List Text)) where
  unfoldable pub extract_alias_refs : Text → List Text → Result Text (List Text)
  unfolding find_refs
  extract_alias_refs source names = elim (identifiers source) [
    | err e ↦ err e
    | ok ids ↦ ok (find_refs names [] ids)
  ]

  -- the loop that fills deps
  unfoldable pub build_deps : List Text → Dict Text → Result AliasError (Dict (List Text))
  unfolding extract_alias_refs
  build_deps names [] = ok []
  build_deps names ((name, source) ∷ aliases) = elim (extract_alias_refs source names) [
    | err e ↦ err (bad_alias name e)
    | ok refs ↦ elim (build_deps names aliases) [
      | err e ↦ err e
      | ok deps ↦ ok ((name, refs) ∷ deps)
    ]
  ]

-- deps[name]
unfoldable pub refs_of : Dict (List Text) → Text → List Text
refs_of deps name = elim (lookup name deps) [ none ↦ [] | some refs ↦ refs ]

unfoldable pub increment : ℤ → ℤ
increment (pos n) = pos (suc n)
increment (negsuc zero) = pos 0
increment (negsuc (suc n)) = negsuc n

unfoldable pub decrement : ℤ → ℤ
decrement (pos zero) = negsuc 0
decrement (pos (suc n)) = pos n
decrement (negsuc n) = negsuc (suc n)

-- inDegree[name]
unfoldable pub degree_of : Dict ℤ → Text → ℤ
degree_of degrees name = elim (lookup name degrees) [ none ↦ pos 0 | some d ↦ d ]

unfoldable pub no_degrees : List Text → Dict ℤ
no_degrees [] = []
no_degrees (name ∷ names) = (name, pos 0) ∷ no_degrees names

unfoldable pub count_refs : List Text → Dict ℤ → Dict ℤ
unfolding increment degree_of
count_refs [] degrees = degrees
count_refs (ref ∷ refs) degrees =
    count_refs refs (insert ref (increment (degree_of degrees ref)) degrees)

unfoldable pub count_all : Dict (List Text) → Dict ℤ → Dict ℤ
unfolding count_refs
count_all [] degrees = degrees
count_all ((name, refs) ∷ deps) degrees = count_all deps (count_refs refs degrees)

unfoldable pub has_none : ℤ → Bool
has_none (pos n) = n == 0
has_none (negsuc n) = false

-- the aliases that no other refers to
unfoldable pub first_queue : Dict ℤ → List Text
unfolding has_none
first_queue [] = []
first_queue ((name, d) ∷ degrees) =
    let rest = first_queue degrees in if has_none d then name ∷ rest else rest

pub record Sorting : Type 0 where
  pub degrees : Dict ℤ
  pub queue : List Text
  pub sorted : List Text

-- one reference of the alias that was popped
unfoldable pub release : Text → Sorting → Sorting
unfolding decrement degree_of has_none
release ref s =
    let d = decrement (degree_of s.degrees ref) in
    record {
      degrees = insert ref d s.degrees;
      queue = if has_none d then s.queue ++ (ref ∷ []) else s.queue;
      sorted = s.sorted;
    }

unfoldable pub release_all : List Text → Sorting → Sorting
unfolding release
release_all [] s = s
release_all (ref ∷ refs) s = release_all refs (release ref s)

-- the round of the loop that pops `name`, with `rest` behind it
unfoldable pub pop_alias : Dict (List Text) → Text → List Text → Sorting → Sorting
unfolding release_all refs_of
pop_alias deps name rest s =
    release_all (refs_of deps name) (record s { queue = rest; sorted = s.sorted ++ (name ∷ []) })

-- The loop, on fuel; none when it runs out.
unfoldable pub drain_queue : Dict (List Text) → ℕ → Sorting → Option Sorting
unfolding pop_alias
drain_queue deps zero s = elim s.queue [ [] ↦ some s | name ∷ rest ↦ none ]
drain_queue deps (suc fuel) s = elim s.queue [
  | [] ↦ some s
  | name ∷ rest ↦ drain_queue deps fuel (pop_alias deps name rest s)
]

unfoldable pub is_waiting : ℤ → Bool
is_waiting (pos n) = not (n == 0)
is_waiting (negsuc n) = false

unfoldable pub waiting : Dict ℤ → List Text
unfolding is_waiting
waiting [] = []
waiting ((name, d) ∷ degrees) =
    let rest = waiting degrees in if is_waiting d then name ∷ rest else rest

unfoldable pub start_sorting : List Text → Dict (List Text) → Sorting
unfolding no_degrees count_all first_queue
start_sorting names deps =
    let degrees = count_all deps (no_degrees names) in
    record { degrees = degrees; queue = first_queue degrees; sorted = [] }

-- the end of the sort: dependencies first, if all aliases are sorted
unfoldable pub finish_sorting : List Text → Sorting → Result AliasError (List Text)
unfolding waiting
finish_sorting names s =
    if length s.sorted == length names
    then ok (reverse s.sorted)
    else err (circular (waiting s.degrees))

-- topoSortAliases, with a round for each alias; none when these are not enough
unfoldable pub topo_sort_aliases :
    (Text → Result Text (List Text)) → Dict Text → Option (Result AliasError (List Text))
unfolding dict_keys build_deps drain_queue start_sorting finish_sorting
topo_sort_aliases identifiers [] = some (ok [])
topo_sort_aliases identifiers ((name, source) ∷ aliases) =
    let names = name ∷ dict_keys aliases in
    elim (build_deps identifiers names ((name, source) ∷ aliases)) [
      | err e ↦ some (err e)
      | ok deps ↦ elim (drain_queue deps (length names) (start_sorting names deps)) [
        | none ↦ none
        | some s ↦ some (finish_sorting names s)
      ]
    ]
