-- ===== src/Checks/Databases.antt =====
-- validateDatabase of internal/validate/validate.go.
use sqlproxy.Prelude.{
  ℕ, suc, ◌≡◌, inl, inr, List, [], ◌∷◌, ◌++◌, Text, codes, Bool, true, false, not, ◌&&◌, Option,
  none, some, Bool-cases, if◌then◌else◌, text_eq, has_prefix, ℤ, pos,
}
use sqlproxy.RateLimit.InlineKey.{decimal}
use sqlproxy.SqlUtil.Words.{contains_word}
use sqlproxy.Checks.{
  Message, Report, warning_of, error_if, NoErrors, NoErrors-error_if, NoErrors-++, add_messages,
  add_messages_valid,
}
use sqlproxy.Checks.Server.{is_zero, is_negative}

-- DatabaseConfig, as far as it is checked
pub record DatabaseConfig : Type 0 where
  pub name : Text
  pub db_type : Text
  pub host : Text
  pub port : ℤ
  pub user : Text
  pub password : Text
  pub database : Text
  pub path : Text
  pub isolation : Text
  pub deadlock_priority : Text
  pub lock_timeout_ms : Option ℤ
  pub busy_timeout_ms : Option ℤ
  pub journal_mode : Text

abbrev pub valid_database_types : List Text
valid_database_types = codes "sqlserver" ∷ codes "mysql" ∷ codes "sqlite" ∷ []

abbrev pub mysql_isolation_levels : List Text
mysql_isolation_levels =
    codes "read_uncommitted"
    ∷ codes "read_committed"
    ∷ codes "repeatable_read"
    ∷ codes "serializable"
    ∷ []

abbrev pub valid_isolation_levels : List Text
valid_isolation_levels = codes "snapshot" ∷ mysql_isolation_levels

abbrev pub valid_deadlock_priorities : List Text
valid_deadlock_priorities = codes "low" ∷ codes "normal" ∷ codes "high" ∷ []

abbrev pub valid_journal_modes : List Text
valid_journal_modes =
    codes "wal" ∷ codes "delete" ∷ codes "truncate" ∷ codes "memory" ∷ codes "off" ∷ []

unfoldable pub negative_ms : Option ℤ → Bool
unfolding is_negative
negative_ms none = false
negative_ms (some ms) = is_negative ms

unfoldable pub warning_if : Bool → Text → List Message
warning_if true t = warning_of t ∷ []
warning_if false t = []

-- a setting that is there and not in the list
abbrev pub not_among : List Text → Text → Bool
not_among valid t = not (text_eq t []) && not (contains_word valid t)

-- what SQL Server and MySQL need for a connection
unfoldable pub validate_connection : Text → DatabaseConfig → List Message
unfolding error_if warning_if is_zero
validate_connection prefix d =
    let needs =
      λ (what : Text). prefix ++ codes ": " ++ what ++ codes " is required for " ++ d.db_type in
    error_if (text_eq d.host []) (needs (codes "host"))
    ++ (error_if (is_zero d.port) (needs (codes "port"))
        ++ (error_if (text_eq d.user []) (needs (codes "user"))
            ++ (error_if (text_eq d.password []) (needs (codes "password"))
                ++ (error_if (text_eq d.database []) (needs (codes "database"))
                    ++ (warning_if (has_prefix d.host (codes "${"))
                          (prefix ++ codes ": host appears to be an unresolved env var: " ++ d.host)
                        ++ warning_if (has_prefix d.password (codes "${"))
                            (prefix ++ codes ": password appears to be an unresolved env var"))))))

unfoldable pub validate_sqlserver : Text → DatabaseConfig → List Message
unfolding validate_connection negative_ms error_if
validate_sqlserver prefix d =
    validate_connection prefix d
    ++ (error_if (not_among valid_isolation_levels d.isolation) (
          prefix
          ++ codes ": invalid isolation level '"
          ++ d.isolation
          ++ codes
              "' (must be read_uncommitted, read_committed, repeatable_read, serializable, or snapshot)")
        ++ (error_if (not_among valid_deadlock_priorities d.deadlock_priority) (
              prefix
              ++ codes ": invalid deadlock_priority '"
              ++ d.deadlock_priority
              ++ codes "' (must be low, normal, or high)")
            ++ error_if (negative_ms d.lock_timeout_ms)
                (prefix ++ codes ": lock_timeout_ms cannot be negative")))

unfoldable pub validate_mysql : Text → DatabaseConfig → List Message
unfolding validate_connection negative_ms error_if
validate_mysql prefix d =
    validate_connection prefix d
    ++ (error_if (not_among mysql_isolation_levels d.isolation) (
          prefix
          ++ codes ": invalid isolation level '"
          ++ d.isolation
          ++ codes
              "' for mysql (must be read_uncommitted, read_committed, repeatable_read, or serializable)")
        ++ error_if (negative_ms d.lock_timeout_ms)
            (prefix ++ codes ": lock_timeout_ms cannot be negative"))

unfoldable pub validate_sqlite : Text → DatabaseConfig → List Message
unfolding negative_ms error_if
validate_sqlite prefix d =
    error_if (text_eq d.path []) (prefix ++ codes ": path is required for sqlite")
    ++ (error_if (not_among valid_journal_modes d.journal_mode) (
          prefix
          ++ codes ": invalid journal_mode '"
          ++ d.journal_mode
          ++ codes "' (must be wal, delete, truncate, memory, or off)")
        ++ error_if (negative_ms d.busy_timeout_ms)
            (prefix ++ codes ": busy_timeout_ms cannot be negative"))

-- the type of a database, and what it needs
unfoldable pub validate_type : Text → DatabaseConfig → List Message
unfolding validate_sqlserver validate_mysql validate_sqlite error_if
validate_type prefix d =
    if text_eq d.db_type []
    then error_if true (prefix ++ codes ": type is required (must be sqlserver, mysql, or sqlite)")
    else if not (contains_word valid_database_types d.db_type)
    then error_if true (
        prefix
        ++ codes ": invalid type '"
        ++ d.db_type
        ++ codes "' (must be sqlserver, mysql, or sqlite)")
    else if text_eq d.db_type (codes "sqlserver")
    then validate_sqlserver prefix d
    else if text_eq d.db_type (codes "mysql")
    then validate_mysql prefix d
    else validate_sqlite prefix d

-- the loop over the databases, after the names in `names`
unfoldable pub validate_databases : ℕ → List Text → List DatabaseConfig → List Message
unfolding validate_type error_if
validate_databases i names [] = []
validate_databases i names (d ∷ ds) =
    let at = codes "databases[" ++ decimal (pos i) [] ++ codes "]" in
    let prefix = at ++ codes " (" ++ d.name ++ codes ")" in
    if text_eq d.name []
    then error_if true (at ++ codes ": name is required") ++ validate_databases (suc i) names ds
    else (error_if (contains_word names d.name) (prefix ++ codes ": duplicate database name")
        ++ validate_type prefix d)
      ++ validate_databases (suc i) (d.name ∷ names) ds

unfoldable pub validate_database : List DatabaseConfig → List Message
unfolding validate_databases error_if
validate_database [] =
    error_if true (codes "At least one database connection is required in 'databases'")
validate_database (d ∷ ds) = validate_databases 0 [] (d ∷ ds)

-- Each database has a new name and a known type.
abbrev pub AreDistinct : List Text → List DatabaseConfig → Type 0
AreDistinct names [] = Unit
AreDistinct names (d ∷ ds) =
    (text_eq d.name [] ≡ false)
    × (contains_word names d.name ≡ false)
    × (contains_word valid_database_types d.db_type ≡ true)
    × AreDistinct (d.name ∷ names) ds

validate_type_accepts :
    (prefix : Text) (d : DatabaseConfig)
    → NoErrors (validate_type prefix d)
    → contains_word valid_database_types d.db_type ≡ true
unfolding validate_type error_if
validate_type_accepts prefix d h =
    elim (Bool-cases (contains_word valid_database_types d.db_type)) [
      | inl k ↦ k
      | inr k ↦ elim (Bool-cases (text_eq d.db_type [])) [
        | inl e ↦ absurd (simp (validate_type, e) at h).0
        | inr e ↦ absurd (simp (validate_type, e, k) at h).0
      ]
    ]

validate_databases-AreDistinct :
    (i : ℕ) (names : List Text) (ds : List DatabaseConfig)
    → NoErrors (validate_databases i names ds)
    → AreDistinct names ds
unfolding validate_databases error_if
validate_databases-AreDistinct i names [] h = tt
validate_databases-AreDistinct i names (d ∷ ds) h =
    let at' = codes "databases[" ++ decimal (pos i) [] ++ codes "]" in
    let prefix = at' ++ codes " (" ++ d.name ++ codes ")" in
    let twice =
      error_if (contains_word names d.name) (prefix ++ codes ": duplicate database name") in
    elim (Bool-cases (text_eq d.name [])) [
      | inl e ↦ absurd (simp (validate_databases, e) at h).0
      | inr e ↦
          let (here, rest) =
            NoErrors-++ (twice ++ validate_type prefix d)
              (validate_databases (suc i) (d.name ∷ names) ds)
              (simp (validate_databases, e) at h) in
          let (new, known) = NoErrors-++ twice (validate_type prefix d) here in
          (
            e,
            NoErrors-error_if (contains_word names d.name)
                (prefix ++ codes ": duplicate database name") new,
            validate_type_accepts prefix d known,
            validate_databases-AreDistinct (suc i) (d.name ∷ names) ds rest,
          )
    ]

-- Databases that pass the check are at least one, and each has a name of its own and the type
-- sqlserver, mysql or sqlite.
pub validate_database-AreDistinct :
    (ds : List DatabaseConfig) (r : Report)
    → (add_messages (validate_database ds) r).valid ≡ true
    → (¬ (ds ≡ [])) × AreDistinct [] ds
unfolding validate_database error_if
validate_database-AreDistinct [] r v = absurd (add_messages_valid (validate_database []) r v).0
validate_database-AreDistinct (d ∷ ds) r v = (
  (λ e. absurd (cc (e))),
  validate_databases-AreDistinct 0 [] (d ∷ ds)
      (add_messages_valid (validate_database (d ∷ ds)) r v),
)
