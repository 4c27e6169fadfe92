-- ===== src/SqlUtil/Tests.antt =====
-- Statements through internal/sqlutil/sqlutil.go.
use sqlproxy.Prelude.{
  ◌≡◌, ◌↔◌, refl, Text, codes, true, false, text_eq, has_prefix, List, [], ◌∷◌, map,
}
use sqlproxy.SqlUtil.Strip.{program, strip_literals}
use sqlproxy.SqlUtil.Strip.Pieces.{
  Piece, plain, line, block, quoted, bracket, render, emitted, strip_literals-render, is_quote,
}
use sqlproxy.SqlUtil.Words.{
  is_ident_char, take_ident, drop_ident, to_upper, trim_space, has_suffix, contains, contains_word,
  index_from, first_field,
}
use sqlproxy.SqlUtil.Access.{Mutates, requires_write_access_iff}
use sqlproxy.SqlUtil.Routing.{is_write_query-requires_write_access}
use sqlproxy.SqlUtil.{
  mentions_keyword, is_write_query, scan_words, requires_write_access, ident_at,
  has_returning_clause,
}

run : Unit {0}
unfolding program text_eq has_prefix is_ident_char take_ident drop_ident to_upper trim_space
    has_suffix contains contains_word index_from first_field mentions_keyword is_write_query
    scan_words requires_write_access ident_at has_returning_clause
run = tt

hidden : strip_literals (codes "a 'DROP ''x''' -- UPDATE") ≡ codes "a    "
unfolding run
hidden = refl

procedure : requires_write_access (codes "SELECT 1; exec p") ≡ true
unfolding run
procedure = refl

-- A column named last_update in a common table expression: the statement is routed as a write,
-- and needs no write access.
cte_column :
    (is_write_query (codes "WITH t AS (SELECT last_update FROM a) SELECT * FROM t") ≡ true)
    × (requires_write_access (codes "WITH t AS (SELECT last_update FROM a) SELECT * FROM t")
        ≡ false)
unfolding run
cte_column = (refl, refl)

-- Only the first RETURNING is looked at, and here it is part of a table's name.
returning_table :
    has_returning_clause (codes "INSERT INTO returning_log (a) VALUES (1) RETURNING id") ≡ false
unfolding run
returning_table = refl

abbrev drop_table : Text
drop_table = codes "SELECT 1; DROP TABLE t"

requires_write_access_iff_example :
    (requires_write_access drop_table ≡ true) ↔ Mutates (to_upper (strip_literals drop_table))
requires_write_access_iff_example = requires_write_access_iff drop_table

is_write_query-requires_write_access_example :
    requires_write_access (codes "  delete from t ") ≡ true
unfolding run
is_write_query-requires_write_access_example =
    is_write_query-requires_write_access (codes "  delete from t ") refl refl

abbrev pieces : List Piece
pieces =
    plain b'a'
    ∷ plain b' '
    ∷ quoted b'\'' (codes "it's")
    ∷ plain b' '
    ∷ block (codes "*x*")
    ∷ bracket (codes "x")
    ∷ line (codes " c")
    ∷ plain b'\n'
    ∷ []

strip_literals-render_example : strip_literals (render pieces) ≡ map emitted pieces
unfolding run render is_quote
strip_literals-render_example = strip_literals-render pieces (
  (refl, refl, refl),
  (
    (refl, refl, refl),
    (
      (refl, refl),
      (
        (refl, refl, refl),
        (
          (refl, (refl, (refl, tt))),
          ((refl, tt), (((refl, (refl, tt)), refl), ((refl, refl, refl), tt))),
        ),
      ),
    ),
  ),
)
