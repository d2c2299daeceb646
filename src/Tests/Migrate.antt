-- ===== src/Tests/Migrate.antt =====
-- Two migrations whose SQL is noted, run on an empty database and again.
use along.Prelude.{◌≡◌, refl, String, true, some, List, [], ◌∷◌, ◌++◌, sort_by, cut_text, pos}
use along.Migrate.{
  Migrated, Migrations, migration_version, parse_int, up_sql, commit, apply_file, migrate_file,
  migrate_each, up,
}
use along.Migrate.Laws.{up-up}

abbrev contents : String
contents = "-- +along Up A -- +along Down B"

abbrev migrations : Migrations (List String)
migrations = record {
  files = "000002_b.sql" ∷ "000001_a.sql" ∷ [];
  read_file = λ name. some contents;
  exec = λ sql done_before. some (done_before ++ sql ∷ []);
}

abbrev nothing : Migrated (List String)
nothing = record { ledger = []; rest = [] }

abbrev migrated : Migrated (List String)
migrated = record {
  ledger =
      record { version = pos 1; name = "000001_a.sql" }
      ∷ record { version = pos 2; name = "000002_b.sql" }
      ∷ [];
  rest = " A " ∷ " A " ∷ [];
}

migrates : up migrations nothing ≡ (true, migrated)
unfolding up migrate_each migrate_file apply_file commit up_sql migration_version parse_int cut_text
    sort_by
migrates = refl

up-up_example : up migrations migrated ≡ (true, migrated)
up-up_example = up-up migrations migrations.exec nothing migrated migrates
