-- ===== src/Workflow/Executor/Block/Tally.antt =====
-- What executeBlockStep of internal/workflow/executor.go reports of its iterations.
use sqlproxy.Prelude.{
  ℕ, suc, ◌+◌, ◌≡◌, refl, sym, ap, ◌∙◌, inl, inr, arith, List, [], ◌∷◌, ◌++◌, Text, codes, true,
  false, not, ◌||◌, some, Option-cases, Bool-cases, length, ==_iff, if◌then◌else◌, text_eq, ok,
  Result-cases,
}
use mathlib.Core.List.{append_assoc, append-nil}
use mathlib.Core.Path.{subst}
use sqlproxy.Params.Values.{ValueLibrary}
use sqlproxy.Params.{Any}
use sqlproxy.Workflow.Context.Results.{IterationResult, Context, BlockContext}
use sqlproxy.Workflow.Executor.Block.{
  BlockRunner, CompiledBlock, Iterating, BlockResult, iterations_of, new_iterating,
  iteration_result, record_iteration, finish_block, run_nested, run_items, items_of_block,
  iterate_as_of, iterate_on_error, new_block_result, execute_block_step,
}

module _ {lib : ValueLibrary} where
  -- The iterations are those of a first part of the items, in their order.
  abbrev pub IsRun : ℕ → List (Any lib) → List (IterationResult lib) → Type 0
  IsRun i items [] = Unit
  IsRun i [] (it ∷ its) = ⊥
  IsRun i (x ∷ items) (it ∷ its) = (it.index ≡ i) × (it.current ≡ x) × IsRun (suc i) items its

  abbrev pub successes : List (IterationResult lib) → ℕ
  successes [] = 0
  successes (it ∷ its) = let rest = successes its in if it.success then suc rest else rest

  abbrev pub failures : List (IterationResult lib) → ℕ
  failures [] = 0
  failures (it ∷ its) = let rest = failures its in if it.success then rest else suc rest

  -- `r'` continues `r` by the iterations `its` of the items from i on.
  pub record IsContinued (i : ℕ) (items : List (Any lib)) (r r' : BlockResult lib)
      (its : List (IterationResult lib)) : Type 0 where
    pub appended : iterations_of r' ≡ iterations_of r ++ its
    pub ordered : IsRun i items its
    pub succeeded : r'.success_count ≡ r.success_count + successes its
    pub failed : r'.failure_count ≡ r.failure_count + failures its
    pub skipped : r'.skipped_count ≡ r.skipped_count
    pub complete : r'.success ≡ true → (length its ≡ length items) × (r'.failure_count ≡ 0)

  module _ {Nested : Type 0} (run : BlockRunner lib Nested) where
    module _ (it : IterationResult lib) (r : BlockResult lib) where
      iterations_of-record_iteration :
          iterations_of (record_iteration run it r) ≡ iterations_of r ++ (it ∷ [])
      unfolding record_iteration
      iterations_of-record_iteration = elim (Bool-cases it.success) [
        | inl s ↦ rw s refl
        | inr s ↦ rw s refl
      ]

      success_count-record_iteration :
          (its : List (IterationResult lib))
          → (record_iteration run it r).success_count + successes its
            ≡ r.success_count + successes (it ∷ its)
      unfolding record_iteration
      success_count-record_iteration its = elim (Bool-cases it.success) [
        | inl s ↦ rw s (omega arith)
        | inr s ↦ rw s refl
      ]

      failure_count-record_iteration :
          (its : List (IterationResult lib))
          → (record_iteration run it r).failure_count + failures its
            ≡ r.failure_count + failures (it ∷ its)
      unfolding record_iteration
      failure_count-record_iteration its = elim (Bool-cases it.success) [
        | inl s ↦ rw s refl
        | inr s ↦ rw s (omega arith)
      ]

      skipped_count-record_iteration : (record_iteration run it r).skipped_count ≡ r.skipped_count
      unfolding record_iteration
      skipped_count-record_iteration = elim (Bool-cases it.success) [
        | inl s ↦ rw s refl
        | inr s ↦ rw s refl
      ]

      success-record_iteration : (record_iteration run it r).success ≡ r.success
      unfolding record_iteration
      success-record_iteration = elim (Bool-cases it.success) [
        | inl s ↦ rw s refl
        | inr s ↦ rw s refl
      ]

    after_iteration :
        (i : ℕ) (x : Any lib) (items : List (Any lib)) (it : Iterating run) (r r' : BlockResult lib)
        (its : List (IterationResult lib))
        → IsContinued (suc i) items (record_iteration run (iteration_result run i x it) r) r' its
        → IsContinued i (x ∷ items) r r' (iteration_result run i x it ∷ its)
    unfolding iteration_result
    after_iteration i x items it r r' its c =
        let one = iteration_result run i x it in
        record {
          appended =
              c.appended
              ∙ ap (λ l. l ++ its) (iterations_of-record_iteration one r)
              ∙ append_assoc (iterations_of r) (one ∷ []) its;
          ordered = (refl, refl, c.ordered);
          succeeded = c.succeeded ∙ success_count-record_iteration one r its;
          failed = c.failed ∙ failure_count-record_iteration one r its;
          skipped = c.skipped ∙ skipped_count-record_iteration one r;
          complete = λ t. (ap suc (c.complete t).0, (c.complete t).1);
        }

    after_loop :
        (i : ℕ) (items : List (Any lib)) (r r' : BlockResult lib) (its : List (IterationResult lib))
        → iterations_of r' ≡ iterations_of r ++ its
        → IsRun i items its
        → r'.success_count ≡ r.success_count + successes its
        → r'.failure_count ≡ r.failure_count + failures its
        → r'.skipped_count ≡ r.skipped_count
        → (r'.failure_count ≡ 0 → length its ≡ length items)
        → IsContinued i items r (finish_block run r') its
    unfolding finish_block
    after_loop i items r r' its a o s f k n = record {
      appended = a;
      ordered = o;
      succeeded = s;
      failed = f;
      skipped = k;
      complete = λ t. let z = (==_iff r'.failure_count 0).0 t in (n z, z);
    }

    -- No iteration follows, and the block fails.
    after_stop :
        (i : ℕ) (items : List (Any lib)) (r : BlockResult lib) (e : Text)
        → r.success ≡ false
        → IsContinued i items r (record r { error = some e }) []
    after_stop i items r e h = record {
      appended = sym (append-nil (iterations_of r));
      ordered = tt;
      succeeded = ground arith;
      failed = ground arith;
      skipped = refl;
      complete = λ t. absurd (cc);
    }

    -- The block ends with an iteration that failed.
    after_abort :
        (i : ℕ) (x : Any lib) (items : List (Any lib)) (it : Iterating run) (r : BlockResult lib)
        → it.success ≡ false
        → let one = iteration_result run i x it in
          IsContinued i
            (x ∷ items)
            r
            (finish_block run (record (record_iteration run one r) { error = it.error }))
            (one ∷ [])
    unfolding iteration_result
    after_abort i x items it r h =
        let one = iteration_result run i x it in
        let s = success_count-record_iteration one r [] in
        let f = failure_count-record_iteration one r [] in
        let counted : failures (one ∷ []) ≡ 1 = rw h refl in
        after_loop i (x ∷ items) r (record (record_iteration run one r) { error = it.error })
          (one ∷ []) (iterations_of-record_iteration one r) (refl, refl, tt) (ground arith)
          (ground arith) (skipped_count-record_iteration one r) (λ z. absurd (omega arith))

    module _ (cs : CompiledBlock run) (parent : Context lib) (iterate_as on_error : Text)
        (total : ℕ) where
      abbrev run_from :
          ℕ → List (Any lib) → BlockResult lib → run.World → run.World × BlockResult lib
      run_from i items r w = run_items run cs parent iterate_as on_error total i items r w

      run_items-IsContinued :
          (i : ℕ) (items : List (Any lib)) (r : BlockResult lib) (w : run.World)
          → r.success ≡ false
          → (its : List (IterationResult lib)) × IsContinued i items r (run_from i items r w).1 its
      unfolding run_items
      run_items-IsContinued i [] r w h = (
        [],
        after_loop i [] r r [] (sym (append-nil (iterations_of r))) tt (ground arith) (ground arith)
            refl (λ z. refl),
      )
      run_items-IsContinued i (x ∷ items) r w h =
          let context : BlockContext lib = record {
            parent = parent;
            block_name = cs.config.name;
            steps = [];
            current_item = x;
            current_index = i;
            total_count = total;
          } in
          let done = run_nested run iterate_as 0 cs.block_steps (new_iterating run context) w in
          elim (Option-cases (run.cancelled w)) [
            | inr (e, k) ↦ simp (run_items, k) ([], after_stop i (x ∷ items) r e h)
            | inl k ↦ elim (Result-cases done.1) [
              | inl (e, d) ↦ simp (run_items, k, d) ([], after_stop i (x ∷ items) r e h)
              | inr (it, d) ↦
                  let one = iteration_result run i x it in
                  let r' = record_iteration run one r in
                  let after =
                    run_items-IsContinued (suc i) items r' done.0
                      (success-record_iteration one r ∙ h) in
                  elim (Bool-cases (it.success || not (text_eq on_error (codes "abort")))) [
                    | inl g ↦
                        simp (run_items, k, d, g)
                          (one ∷ after.0, after_iteration i x items it r _ after.0 after.1)
                    | inr g ↦
                        simp (run_items, k, d, g)
                          (one ∷ [], after_abort i x items it r (ground arith))
                  ]
            ]
          ]

  -- A block's result counts the iterations it lists.
  pub record IsTallied (items : List (Any lib)) (r : BlockResult lib) : Type 0 where
    pub ordered : IsRun 0 items (iterations_of r)
    pub succeeded : r.success_count ≡ successes (iterations_of r)
    pub failed : r.failure_count ≡ failures (iterations_of r)
    pub skipped : r.skipped_count ≡ 0
    pub complete :
        r.success ≡ true → (length (iterations_of r) ≡ length items) × (r.failure_count ≡ 0)

  module _ {Nested : Type 0} (run : BlockRunner lib Nested) (cs : CompiledBlock run)
      (c : Context lib) (w : run.World) where
    tally : {m n k l : ℕ} → m ≡ n + k → n ≡ 0 → l ≡ k → m ≡ l
    tally p z q = omega arith

    of_whole_run :
        (items : List (Any lib)) (r r' : BlockResult lib)
        → r ≡ new_block_result run
        → (its : List (IterationResult lib)) × IsContinued 0 items r r' its
        → IsTallied items r'
    of_whole_run items r r' p (its, c) =
        let fresh : iterations_of r ++ its ≡ its = rw p refl in
        let a : iterations_of r' ≡ its = c.appended ∙ fresh in
        let none_yet : (r.success_count ≡ 0) × (r.failure_count ≡ 0) × (r.skipped_count ≡ 0) =
          rw p (refl, refl, refl) in
        record {
          ordered = subst (IsRun 0 items) (sym a) c.ordered;
          succeeded = tally c.succeeded none_yet.0 (ap successes a);
          failed = tally c.failed none_yet.1 (ap failures a);
          skipped = c.skipped ∙ none_yet.2;
          complete = λ t. (ap length a ∙ (c.complete t).0, (c.complete t).1);
        }

    -- When the items of a block can be evaluated, its iterations are those of a first part of the
    -- items, in order, with their indices; the counts of successes and failures are those of the
    -- iterations listed, no iteration is ever counted as skipped, and the block succeeds only when
    -- every item was iterated and none failed.
    pub execute_block_step-IsTallied :
        (items : List (Any lib))
        → items_of_block run cs c ≡ ok items
        → IsTallied items (execute_block_step run cs c w).1
    unfolding execute_block_step
    execute_block_step-IsTallied items h =
        simp (execute_block_step, h)
          (of_whole_run items (new_block_result run) _ refl (
            run_items-IsContinued run cs c (iterate_as_of run cs) (iterate_on_error run cs)
              (length items) 0 items (new_block_result run) w refl))
