-- ===== src/Db/Session.antt =====
-- The statements that prepare a session: configureSession of the drivers in internal/db, and the
-- defaults of internal/config/config.go.
use sqlproxy.Prelude.{
  ℕ, ◌+◌, ◌*◌, ◌/◌, ◌≤◌, ◌<◌, arith, List, [], ◌∷◌, ◌++◌, Text, codes, Bool, true, Option, none,
  some, ◌==◌, if◌then◌else◌, text_eq, ℤ, pos, negsuc,
}
use sqlproxy.RateLimit.InlineKey.{decimal}
use sqlproxy.Params.Texts.{to_lower}

pub record SessionConfig : Type 0 where
  pub isolation : Text
  pub lock_timeout_ms : ℤ
  pub deadlock_priority : Text

-- The fields of a DatabaseConfig that a session reads.
pub record DatabaseConfig : Type 0 where
  pub db_type : Text
  pub read_only : Option Bool
  pub busy_timeout_ms : Option ℤ
  pub journal_mode : Text

unfoldable pub is_read_only : DatabaseConfig → Bool
is_read_only d = elim d.read_only [ none ↦ true | some b ↦ b ]

unfoldable pub default_session_config : DatabaseConfig → SessionConfig
unfolding is_read_only
default_session_config d = record {
  isolation =
      if text_eq d.db_type (codes "mysql")
      then codes "read_committed"
      else if is_read_only d
      then codes "read_uncommitted"
      else codes "read_committed";
  lock_timeout_ms = pos 5000;
  deadlock_priority = codes "low";
}

unfoldable pub isolation_to_sql : Text → Text
isolation_to_sql isolation =
    if text_eq isolation (codes "read_uncommitted")
    then codes "READ UNCOMMITTED"
    else if text_eq isolation (codes "read_committed")
    then codes "READ COMMITTED"
    else if text_eq isolation (codes "repeatable_read")
    then codes "REPEATABLE READ"
    else if text_eq isolation (codes "serializable")
    then codes "SERIALIZABLE"
    else if text_eq isolation (codes "snapshot")
    then codes "SNAPSHOT"
    else codes "READ COMMITTED"

unfoldable pub mysql_isolation_to_sql : Text → Text
mysql_isolation_to_sql isolation =
    if text_eq isolation (codes "read_uncommitted")
    then codes "READ UNCOMMITTED"
    else if text_eq isolation (codes "read_committed")
    then codes "READ COMMITTED"
    else if text_eq isolation (codes "repeatable_read")
    then codes "REPEATABLE READ"
    else if text_eq isolation (codes "serializable")
    then codes "SERIALIZABLE"
    else codes "READ COMMITTED"

unfoldable pub deadlock_priority_to_sql : Text → Text
deadlock_priority_to_sql priority =
    if text_eq priority (codes "low")
    then codes "LOW"
    else if text_eq priority (codes "normal")
    then codes "NORMAL"
    else if text_eq priority (codes "high")
    then codes "HIGH"
    else codes "LOW"

-- (ms + 999) / 1000, or the default below one second; Go divides towards zero, so a negative time
-- gives no second
unfoldable pub lock_timeout_sec : ℤ → ℕ
lock_timeout_sec (pos n) = let sec = (n + 999) / 1000 in if sec == 0 then 5 else sec
lock_timeout_sec (negsuc n) = 5

unfoldable pub mysql_session : Bool → SessionConfig → List Text
unfolding mysql_isolation_to_sql lock_timeout_sec
mysql_session read_only cfg =
    (codes "SET SESSION TRANSACTION ISOLATION LEVEL " ++ mysql_isolation_to_sql cfg.isolation)
    ∷ (codes "SET SESSION innodb_lock_wait_timeout = "
        ++ decimal (pos (lock_timeout_sec cfg.lock_timeout_ms)) [])
    ∷ (if read_only then codes "SET SESSION TRANSACTION READ ONLY" ∷ [] else [])

-- a line break, two tabs and the text
abbrev session_line : Text → Text
session_line text = 10 ∷ 9 ∷ 9 ∷ text

-- one statement of several lines
unfoldable pub sql_server_session : SessionConfig → List Text
unfolding isolation_to_sql deadlock_priority_to_sql
sql_server_session cfg =
    (session_line
        (codes "SET TRANSACTION ISOLATION LEVEL " ++ isolation_to_sql cfg.isolation ++ codes ";")
      ++ session_line (codes "SET LOCK_TIMEOUT " ++ decimal cfg.lock_timeout_ms [] ++ codes ";")
      ++ session_line (
          codes "SET DEADLOCK_PRIORITY "
          ++ deadlock_priority_to_sql cfg.deadlock_priority
          ++ codes ";")
      ++ session_line (codes "SET NOCOUNT ON;")
      ++ session_line (codes "SET IMPLICIT_TRANSACTIONS OFF;")
      ++ session_line (codes "SET ARITHABORT ON;")
      ++ (10 ∷ 9 ∷ []))
    ∷ []

unfoldable pub sqlite_session : DatabaseConfig → List Text
sqlite_session d =
    let timeout : ℤ = elim d.busy_timeout_ms [ none ↦ pos 5000 | some ms ↦ ms ] in
    let mode : Text = if text_eq d.journal_mode [] then codes "wal" else d.journal_mode in
    (codes "PRAGMA busy_timeout = " ++ decimal timeout [])
    ∷ (codes "PRAGMA journal_mode = " ++ mode)
    ∷ codes "PRAGMA foreign_keys = ON"
    ∷ (if text_eq (to_lower mode) (codes "wal")
        then codes "PRAGMA synchronous = NORMAL" ∷ []
        else [])

-- The wait for a lock is a whole number of seconds, at least one, rounded up.
pub lock_timeout_sec_lem :
    (ms : ℕ)
    → 1 ≤ ms
    → let sec = lock_timeout_sec (pos ms) in
      (1 ≤ sec) × (ms ≤ sec * 1000) × (sec * 1000 < ms + 1000)
unfolding lock_timeout_sec
lock_timeout_sec_lem ms h = ground arith
