-- ===== src/SqlUtil/Strip/Total.antt =====
-- The outer loop of stripLiterals ends: the length of the text is fuel enough.
use sqlproxy.Prelude.{ℕ, zero, suc, ◌≤◌, ◌≡◌, refl, ap, arith, [], ◌∷◌, Text, length, drop}
use sqlproxy.SqlUtil.Strip.{
  skip_line, skip_block, skip_quoted, skip_bracket, strip_step, strip_loop, strip_literals,
}

length-skip_line : (s : Text) → length (skip_line s) ≤ length s
unfolding skip_line
length-skip_line [] = omega arith
length-skip_line (c ∷ s) = ground (arith, length-skip_line s)

length-drop_one : (s : Text) → length (drop 1 s) ≤ length s
length-drop_one [] = omega arith
length-drop_one (c ∷ s) = omega arith

length-skip_block : (s : Text) → length (skip_block s) ≤ length s
unfolding skip_block
length-skip_block [] = omega arith
length-skip_block (c ∷ s) = ground (arith, length-skip_block s, length-drop_one s)

length-skip_quoted : (q : ℕ) (s : Text) → length (skip_quoted q s) ≤ length s
unfolding skip_quoted
length-skip_quoted q [] = omega arith
length-skip_quoted q (c ∷ []) = omega arith
length-skip_quoted q (c ∷ d ∷ s) =
    ground (arith, length-skip_quoted q s, length-skip_quoted q (d ∷ s))

length-skip_bracket : (s : Text) → length (skip_bracket s) ≤ length s
unfolding skip_bracket
length-skip_bracket [] = omega arith
length-skip_bracket (c ∷ s) = ground (arith, length-skip_bracket s)

length-strip_step : (c : ℕ) (s : Text) → length (strip_step c s).1 ≤ length s
unfolding strip_step
length-strip_step c s = ground (
  arith,
  length-drop_one s,
  length-skip_line (drop 1 s),
  length-skip_block (drop 1 s),
  length-skip_quoted c s,
  length-skip_bracket s,
)

-- With more fuel than bytes the fuel does not matter.
strip_loop_fuel :
    (f g : ℕ) (s : Text) → length s ≤ f → length s ≤ g → strip_loop f s ≡ strip_loop g s
unfolding strip_loop
strip_loop_fuel zero zero s hf hg = refl
strip_loop_fuel zero (suc g) [] hf hg = refl
strip_loop_fuel zero (suc g) (c ∷ s) hf hg = absurd (omega arith)
strip_loop_fuel (suc f) zero [] hf hg = refl
strip_loop_fuel (suc f) zero (c ∷ s) hf hg = absurd (omega arith)
strip_loop_fuel (suc f) (suc g) [] hf hg = refl
strip_loop_fuel (suc f) (suc g) (c ∷ s) hf hg = ap (◌∷◌ (strip_step c s).0) (
    strip_loop_fuel f g (strip_step c s).1 (omega (arith, length-strip_step c s))
      (omega (arith, length-strip_step c s)))

-- The loop as an equation without fuel.
pub strip_literals-cons :
    (c : ℕ) (s : Text)
    → strip_literals (c ∷ s) ≡ (strip_step c s).0 ∷ strip_literals (strip_step c s).1
unfolding strip_literals strip_loop
strip_literals-cons c s = ap (◌∷◌ (strip_step c s).0) (
    strip_loop_fuel (length s) (length (strip_step c s).1) (strip_step c s).1
      (length-strip_step c s) (omega arith))

pub strip_literals-nil : strip_literals [] ≡ []
unfolding strip_literals strip_loop
strip_literals-nil = refl
