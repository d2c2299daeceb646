-- ===== src/Migrate.antt =====
-- The migrations of server/internal/migrate/migrate.go. The embedded files are an argument, as what
-- fs.Glob lists and what ReadFile reads; what a migration's SQL does to the rest of the database,
-- of a type that is a parameter, is one too, and fails or not. The advisory lock makes runs of Up
-- follow one another. An error of the connection itself is not modelled.
pub mod Laws
use Prim.Native.String.{compare}
use text.Mathlib.Text.{is_le}
use along.Prelude.{
  ℕ, zero, suc, ◌+◌, ◌-◌, ◌*◌, ◌^◌, String, Bool, true, false, ◌&&◌, Option, none, some, List, [],
  ◌∷◌, ◌++◌, ◌==◌, any, leb, ltb, sort_by, str_eq, starts_with, char_length, cut_text, ℤ, pos,
  negsuc, if◌then◌else◌,
}
use Prim.Native.Char.{code}

-- A row of schema_migrations, without the time.
pub record MigrationRow : Type 0 where
  pub version : ℤ
  pub name : String

abbrev pub int_eq : ℤ → ℤ → Bool
int_eq (pos m) (pos n) = m == n
int_eq (negsuc m) (negsuc n) = m == n
int_eq _ _ = false

-- The number that decimal digits write.
digits_of : ℕ → String → Option ℕ
digits_of n String.[] = some n
digits_of n (String.◌∷◌ c s) =
    let rest = digits_of (n * 10 + (code c - 48)) s in
    if leb 48 (code c) && leb (code c) 57 then rest else none

some_digits : String → Option ℕ
unfolding digits_of
some_digits String.[] = none
some_digits (String.◌∷◌ c s) = digits_of 0 (String.◌∷◌ c s)

abbrev positive : Option ℕ → Option ℤ
positive none = none
positive (some n) = if ltb n (2 ^ 63) then some (pos n) else none

abbrev negative : Option ℕ → Option ℤ
negative none = none
negative (some zero) = some (pos 0)
negative (some (suc n)) = if leb (suc n) (2 ^ 63) then some (negsuc n) else none

-- strconv.ParseInt in base 10, for 64 bits.
unfoldable pub parse_int : String → Option ℤ
unfolding some_digits
parse_int String.[] = none
parse_int (String.◌∷◌ c s) =
    if code c == b'-'
    then negative (some_digits s)
    else if code c == b'+'
    then positive (some_digits s)
    else positive (some_digits (String.◌∷◌ c s))

abbrev of_prefix : Option (String × String) → Option ℤ
of_prefix none = none
of_prefix (some (number, rest)) = parse_int number

-- migrationVersion
unfoldable pub migration_version : String → Option ℤ
unfolding parse_int
migration_version name = of_prefix (cut_text b'_' name)

-- What stands before a marker: the first text of strings.SplitN at it.
before_marker : String → String → String
before_marker marker String.[] = ""
before_marker marker (String.◌∷◌ c s) =
    let rest = before_marker marker s in
    if starts_with (String.◌∷◌ c s) marker then "" else String.◌∷◌ c rest

drop_text : ℕ → String → String
drop_text zero s = s
drop_text (suc n) String.[] = ""
drop_text (suc n) (String.◌∷◌ c s) = drop_text n s

abbrev trim_prefix : String → String → String
trim_prefix text start = if starts_with text start then drop_text (char_length start) text else text

-- The SQL that a file applies.
unfoldable pub up_sql : String → String
unfolding before_marker drop_text
up_sql content = trim_prefix (before_marker "-- +along Down" content) "-- +along Up"

module _ (S : Type 0) where
  -- The database: the ledger, and the rest.
  pub record Migrated : Type 0 where
    pub ledger : List MigrationRow
    pub rest : S

  -- The files, and what SQL does, if it does not fail.
  pub record Migrations : Type 0 where
    pub files : List String
    pub read_file : String → Option String
    pub exec : String → S → Option S

-- SELECT EXISTS (SELECT 1 FROM schema_migrations WHERE version = $1)
abbrev pub is_applied : ℤ → List MigrationRow → Bool
is_applied version ledger = any (λ r. int_eq r.version version) ledger

module _ {S : Type 0} where
  -- The transaction of a migration: a failure rolls it back.
  unfoldable pub commit : ℤ → String → Migrated S → Option S → Bool × Migrated S
  commit version name s none = (false, s)
  commit version name s (some rest) = (
    true,
    record { ledger = s.ledger ++ record { version = version; name = name } ∷ []; rest = rest },
  )

  unfoldable pub apply_file :
      Migrations S → ℤ → String → Option String → Migrated S → Bool × Migrated S
  unfolding commit up_sql
  apply_file m version name none s = (false, s)
  apply_file m version name (some content) s =
      commit version name s (m.exec (up_sql content) s.rest)

  -- One turn of the loop: whether there was no error, and the database after it.
  unfoldable pub migrate_file : Migrations S → String → Option ℤ → Migrated S → Bool × Migrated S
  unfolding apply_file
  migrate_file m name none s = (false, s)
  migrate_file m name (some version) s =
      if is_applied version s.ledger
      then (true, s)
      else apply_file m version name (m.read_file name) s

  abbrev pub go_on : (Migrated S → Bool × Migrated S) → Bool × Migrated S → Bool × Migrated S
  go_on next (true, s) = next s
  go_on next (false, s) = (false, s)

  -- The loop of Up.
  unfoldable pub migrate_each : Migrations S → List String → Migrated S → Bool × Migrated S
  unfolding migrate_file migration_version
  migrate_each m [] s = (true, s)
  migrate_each m (name ∷ names) s =
      go_on (λ s'. migrate_each m names s') (migrate_file m name (migration_version name) s)

  -- Up
  unfoldable pub up : Migrations S → Migrated S → Bool × Migrated S
  unfolding migrate_each
  up m s = migrate_each m (sort_by (λ a b. is_le (compare a b)) m.files) s
