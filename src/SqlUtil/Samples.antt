-- ===== src/SqlUtil/Samples.antt =====
-- A statement that internal/sqlutil/sqlutil.go classifies, for the runs of its callers.
use sqlproxy.Prelude.{◌≡◌, refl, Text, codes, false, text_eq, has_prefix}
use sqlproxy.SqlUtil.Strip.{program}
use sqlproxy.SqlUtil.Words.{is_ident_char, take_ident, drop_ident, to_upper, contains_word}
use sqlproxy.SqlUtil.{scan_words, requires_write_access}

abbrev pub select_one : Text
select_one = codes "SELECT 1"

pub select_one_reads : requires_write_access select_one ≡ false
unfolding program text_eq has_prefix is_ident_char take_ident drop_ident to_upper contains_word
    scan_words requires_write_access
select_one_reads = refl
