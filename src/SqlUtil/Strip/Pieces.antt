-- ===== src/SqlUtil/Strip/Pieces.antt =====
-- What stripLiterals is for, said without loops: a statement is a sequence of pieces, and each
-- literal, comment or quoted identifier comes out as one space.
use sqlproxy.Prelude.{
  ℕ, ◌≡◌, refl, ap, ◌∙◌, arith, List, [], ◌∷◌, ◌++◌, map, Text, Bool, true, false, ◌&&◌, ◌||◌, ◌==◌,
  ==_iff, if◌then◌else◌, Bool-cases, inl, inr, All,
}
use sqlproxy.SqlUtil.Strip.{
  next_is, skip_line, skip_block, skip_quoted, skip_bracket, strip_step, strip_literals,
}
use sqlproxy.SqlUtil.Strip.Total.{strip_literals-cons, strip_literals-nil}

pub data Piece : Type 0 where
  plain : ℕ → Piece
  line block bracket : Text → Piece
  quoted : ℕ → Text → Piece

-- A quote in a quoted text is written twice.
unfoldable pub escape : ℕ → Text → Text
escape q [] = []
escape q (c ∷ s) = if c == q then q ∷ q ∷ escape q s else c ∷ escape q s

-- The text of a piece, before the text that follows it.
unfoldable pub written : Piece → Text → Text
written (plain c) rest = c ∷ rest
written (line b) rest = b'-' ∷ b'-' ∷ (b ++ rest)
written (block b) rest = b'/' ∷ b'*' ∷ (b ++ (b'*' ∷ b'/' ∷ rest))
written (quoted q b) rest = q ∷ (escape q b ++ (q ∷ rest))
written (bracket b) rest = b'[' ∷ (b ++ (b']' ∷ rest))

unfoldable pub render : List Piece → Text
unfolding written escape
render [] = []
render (p ∷ ps) = written p (render ps)

unfoldable pub emitted : Piece → ℕ
emitted (plain c) = c
emitted _ = b' '

unfoldable pub is_quote : ℕ → Bool
is_quote c = c == b'\'' || c == b'"' || c == b'`'

-- The body of a block comment does not close it.
abbrev pub Opens : Text → Type 0
Opens [] = Unit {0}
Opens (c ∷ b) = ((c == b'*' && next_is b'/' b) ≡ false) × Opens b

-- A piece is read back as itself in front of `rest`.
abbrev pub Fits : Piece → Text → Type 0
Fits (plain c) rest =
    ((is_quote c || c == b'[') ≡ false)
    × ((c == b'-' && next_is b'-' rest) ≡ false)
    × ((c == b'/' && next_is b'*' rest) ≡ false)
Fits (line b) [] = All (λ c. (c == b'\n') ≡ false) b
Fits (line b) (d ∷ rest) = All (λ c. (c == b'\n') ≡ false) b × (d ≡ b'\n')
Fits (block b) rest = Opens b
Fits (quoted q b) rest = (is_quote q ≡ true) × (next_is q rest ≡ false)
Fits (bracket b) rest = All (λ c. (c == b']') ≡ false) b

-- Every piece fits what follows it.
abbrev pub AllFit : List Piece → Type 0
AllFit [] = Unit {0}
AllFit (p ∷ ps) = Fits p (render ps) × AllFit ps

skip_line-body : (b rest : Text) → Fits (line b) rest → skip_line (b ++ rest) ≡ rest
unfolding skip_line
skip_line-body [] [] h = refl
skip_line-body [] (d ∷ rest) h = ground (arith, ==_iff d b'\n')
skip_line-body (c ∷ b) [] h = rw (h.0, skip_line) (skip_line-body b [] h.1)
skip_line-body (c ∷ b) (d ∷ rest) h =
    rw (h.0.0, skip_line) (skip_line-body b (d ∷ rest) (h.0.1, h.1))

next_is-append : (b rest : Text) (c : ℕ) → next_is b'/' (b ++ (b'*' ∷ rest)) ≡ next_is b'/' b
unfolding next_is
next_is-append [] rest c = refl
next_is-append (d ∷ b) rest c = refl

skip_block-body : (b rest : Text) → Opens b → skip_block (b ++ (b'*' ∷ b'/' ∷ rest)) ≡ rest
unfolding skip_block
skip_block-body [] rest h = unfold next_is in refl
skip_block-body (c ∷ b) rest h =
    ground (arith, next_is-append b (b'/' ∷ rest) c, skip_block-body b rest h.1)

skip_bracket-body :
    (b rest : Text) → All (λ c. (c == b']') ≡ false) b → skip_bracket (b ++ (b']' ∷ rest)) ≡ rest
unfolding skip_bracket
skip_bracket-body [] rest h = refl
skip_bracket-body (c ∷ b) rest h = rw (h.0, skip_bracket) (skip_bracket-body b rest h.1)

skip_quoted_other :
    (q c : ℕ) (s : Text) → (c == q) ≡ false → skip_quoted q (c ∷ s) ≡ skip_quoted q s
unfolding skip_quoted
skip_quoted_other q c [] h = refl
skip_quoted_other q c (d ∷ s) h = rw (h, skip_quoted)

skip_quoted_twice : (q : ℕ) (s : Text) → skip_quoted q (q ∷ q ∷ s) ≡ skip_quoted q s
unfolding skip_quoted
skip_quoted_twice q s = ground (arith, ==_iff q q)

skip_quoted_end : (q : ℕ) (s : Text) → next_is q s ≡ false → skip_quoted q (q ∷ s) ≡ s
unfolding skip_quoted next_is
skip_quoted_end q [] h = refl
skip_quoted_end q (d ∷ s) h = ground (arith, ==_iff q q)

skip_quoted-escape :
    (q : ℕ) (b rest : Text)
    → next_is q rest ≡ false
    → skip_quoted q (escape q b ++ (q ∷ rest)) ≡ rest
unfolding escape
skip_quoted-escape q [] rest h = skip_quoted_end q rest h
skip_quoted-escape q (c ∷ b) rest h = elim (Bool-cases (c == q)) [
  | inl e ↦ rw e (skip_quoted_twice q (escape q b ++ (q ∷ rest)) ∙ skip_quoted-escape q b rest h)
  | inr e ↦
      rw e (skip_quoted_other q c (escape q b ++ (q ∷ rest)) e ∙ skip_quoted-escape q b rest h)
]

-- One round reads one piece.
module _ (rest : Text) where
  step_plain : (c : ℕ) → Fits (plain c) rest → strip_step c rest ≡ (c, rest)
  unfolding strip_step is_quote
  step_plain c h = ground arith

  step_line : (b : Text) → Fits (line b) rest → strip_step b'-' (b'-' ∷ (b ++ rest)) ≡ (b' ', rest)
  unfolding strip_step next_is
  step_line b h = ground (arith, skip_line-body b rest h)

  step_block :
      (b : Text)
      → Fits (block b) rest
      → strip_step b'/' (b'*' ∷ (b ++ (b'*' ∷ b'/' ∷ rest))) ≡ (b' ', rest)
  unfolding strip_step next_is
  step_block b h = ground (arith, skip_block-body b rest h)

  step_quoted :
      (q : ℕ) (b : Text)
      → Fits (quoted q b) rest
      → strip_step q (escape q b ++ (q ∷ rest)) ≡ (b' ', rest)
  unfolding strip_step is_quote
  step_quoted q b h = ground (arith, skip_quoted-escape q b rest h.1)

  step_bracket :
      (b : Text) → Fits (bracket b) rest → strip_step b'[' (b ++ (b']' ∷ rest)) ≡ (b' ', rest)
  unfolding strip_step
  step_bracket b h = ground (arith, skip_bracket-body b rest h)

  pieces_step :
      (c b : ℕ) (s : Text)
      → strip_step c s ≡ (b, rest)
      → strip_literals (c ∷ s) ≡ b ∷ strip_literals rest
  pieces_step c b s e = strip_literals-cons c s ∙ ap (λ (r : ℕ × Text). r.0 ∷ strip_literals r.1) e

  piece_lem :
      (p : Piece) → Fits p rest → strip_literals (written p rest) ≡ emitted p ∷ strip_literals rest
  unfolding written emitted
  piece_lem (plain c) h = pieces_step c c rest (step_plain c h)
  piece_lem (line b) h = pieces_step _ _ _ (step_line b h)
  piece_lem (block b) h = pieces_step _ _ _ (step_block b h)
  piece_lem (quoted q b) h = pieces_step _ _ _ (step_quoted q b h)
  piece_lem (bracket b) h = pieces_step _ _ _ (step_bracket b h)

-- A statement written as plain bytes, comments, quoted texts and bracketed names is stripped to
-- its plain bytes with a space for each other piece.
pub strip_literals-render :
    (ps : List Piece) → AllFit ps → strip_literals (render ps) ≡ map emitted ps
unfolding render
strip_literals-render [] h = strip_literals-nil
strip_literals-render (p ∷ ps) h =
    piece_lem (render ps) p h.0 ∙ ap (◌∷◌ (emitted p)) (strip_literals-render ps h.1)
