-- ===== src/Workflow/Validate/Order.antt =====
-- The steps that a condition may mention, as internal/workflow/validate.go checks them.
use sqlproxy.Prelude.{ℕ, zero, suc, ◌<◌, ◌≡◌, List, [], ◌∷◌, Text, true, some, All, Dict, lookup}
use sqlproxy.Params.Texts.{one_of}
use sqlproxy.Workflow.Config.{StepConfig, StepTree, config_of, filled}
use sqlproxy.Workflow.Validate.ReadOnly.{steps_of}
use sqlproxy.Workflow.Validate.Steps.{ExprLibrary, all_refs}

-- The indices noted are below i, and their names are known.
abbrev IsNoted : ℕ → Dict ℕ → List Text → Type 0
IsNoted i names known =
    (r : Text) (j : ℕ) → lookup r names ≡ some j → (j < i) × (one_of r known ≡ true)

module _ (exprs : ExprLibrary) where
  -- Of the steps in their order, each condition mentions only names of steps before; `Inside` is
  -- what is asked of the steps in a block.
  abbrev IsOrderedList :
      {E Nested : Type 0}
      → (E → StepConfig Nested)
      → (E → Type 0)
      → Dict Text
      → List Text
      → List E
      → Type 0
  IsOrderedList view Inside aliases known [] = Unit
  IsOrderedList view Inside aliases known (s ∷ steps) =
      ((refs : List Text)
        → filled (view s).condition ≡ true
        → all_refs exprs (view s).condition aliases ≡ some refs
        → All (λ r. one_of r known ≡ true) refs)
      × Inside s
      × IsOrderedList view Inside aliases ((view s).name ∷ known) steps

  -- The steps in a block are ordered among themselves, at any depth.
  abbrev pub IsOrderedInside : (depth : ℕ) → Dict Text → StepTree depth → Type 0
  IsOrderedInside zero aliases s = ⊥
  IsOrderedInside (suc depth) aliases cfg =
      IsOrderedList (config_of depth) (IsOrderedInside depth aliases) aliases [] (steps_of cfg)

  abbrev pub IsOrdered : (depth : ℕ) → Dict Text → List Text → List (StepTree depth) → Type 0
  IsOrdered depth aliases = IsOrderedList (config_of depth) (IsOrderedInside depth aliases) aliases
