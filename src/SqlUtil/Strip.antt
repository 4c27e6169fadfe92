-- ===== src/SqlUtil/Strip.antt =====
-- stripLiterals of internal/sqlutil/sqlutil.go. The index `i` of the source is the text that is
-- left, `sql[i:]`; each inner loop gives what is left behind it.
pub mod Total
pub mod Pieces
use sqlproxy.Prelude.{
  ℕ, zero, suc, [], ◌∷◌, Text, Bool, true, false, ◌&&◌, length, drop, ◌==◌, if◌then◌else◌,
}

-- i < len(sql) && sql[i] == c
pub next_is : ℕ → Text → Bool
next_is c [] = false
next_is c (d ∷ s) = d == c

-- -- to end of line
skip_line : Text → Text
skip_line [] = []
skip_line (c ∷ s) = elim (c == b'\n') [ true ↦ c ∷ s | false ↦ skip_line s ]

-- to behind the next */
skip_block : Text → Text
skip_block [] = []
skip_block (c ∷ s) = elim (c == b'*' && next_is b'/' s) [ true ↦ drop 1 s | false ↦ skip_block s ]

-- to behind the closing q; qq is an escaped one
skip_quoted : ℕ → Text → Text
skip_quoted q [] = []
skip_quoted q (c ∷ []) = []
skip_quoted q (c ∷ d ∷ s) = elim (c == q) [
  | true ↦ elim (d == q) [ true ↦ skip_quoted q s | false ↦ d ∷ s ]
  | false ↦ skip_quoted q (d ∷ s)
]

-- to behind the next ]
skip_bracket : Text → Text
skip_bracket [] = []
skip_bracket (c ∷ s) = elim (c == b']') [ true ↦ s | false ↦ skip_bracket s ]

-- One round of the outer loop: the byte that it writes, and the text that is left.
pub strip_step : ℕ → Text → ℕ × Text
strip_step ch s =
    if ch == b'-' && next_is b'-' s
    then (b' ', skip_line (drop 1 s))
    else if ch == b'/' && next_is b'*' s
    then (b' ', skip_block (drop 1 s))
    else if ch == b'\''
    then (b' ', skip_quoted ch s)
    else if ch == b'"'
    then (b' ', skip_quoted ch s)
    else if ch == b'`'
    then (b' ', skip_quoted ch s)
    else if ch == b'['
    then (b' ', skip_bracket s)
    else (ch, s)

strip_loop : ℕ → Text → Text
strip_loop zero s = []
strip_loop (suc fuel) [] = []
strip_loop (suc fuel) (ch ∷ s) =
    let (written, left) = strip_step ch s in written ∷ strip_loop fuel left

-- Every round takes a byte, so the length is fuel enough.
pub strip_literals : Text → Text
strip_literals sql = strip_loop (length sql) sql

-- The definitions that a run computes with.
unfoldable pub program : Unit {0}
unfolding strip_literals strip_loop strip_step skip_bracket skip_quoted skip_block skip_line next_is
program = tt
