-- ===== src/Migrate/Laws.antt =====
-- A run of Up that succeeded has applied every file, and a further run changes nothing.
use along.Prelude.{
  ◌≡◌, refl, sym, ap, ◌∙◌, String, Bool, true, false, Option, none, some, List, [], ◌∷◌, ◌++◌,
  ==_refl, any, any-append, append-nil, append_assoc, if◌then◌else◌, All, ℤ, pos, negsuc,
}
use along.Migrate.{
  MigrationRow, Migrated, Migrations, int_eq, is_applied, migration_version, commit, apply_file,
  migrate_file, migrate_each, up, up_sql, go_on,
}

int_eq_refl : (z : ℤ) → int_eq z z ≡ true
int_eq_refl (pos n) = ==_refl n
int_eq_refl (negsuc n) = ==_refl n

-- The file's version is in the ledger.
pub record IsRecorded (ledger : List MigrationRow) (name : String) : Type 0 where
  pub version : ℤ
  pub named : migration_version name ≡ some version
  pub applied : any (λ r. int_eq r.version version) ledger ≡ true

module _ {S : Type 0} (m : Migrations S) where
  -- The ledger only grows.
  record Grows (s s' : Migrated S) : Type 0 where
    added : List MigrationRow
    same : s'.ledger ≡ s.ledger ++ added

  appended :
      (version : ℤ) (name : String) (rest : S) (s s' : Migrated S)
      → commit version name s (some rest) ≡ (true, s')
      → s'.ledger ≡ s.ledger ++ record { version = version; name = name } ∷ []
  unfolding commit
  appended version name rest s s' e = ap (λ p. p.1.ledger) (sym e)

  apply_file-appends :
      (version : ℤ) (name : String) (content : Option String) (s s' : Migrated S)
      → apply_file m version name content s ≡ (true, s')
      → s'.ledger ≡ s.ledger ++ record { version = version; name = name } ∷ []
  unfolding apply_file commit
  apply_file-appends version name none s s' e = cc
  apply_file-appends version name (some content) s s' e = go (m.exec (up_sql content) s.rest) e
    where
      go :
          (o : Option S)
          → commit version name s o ≡ (true, s')
          → s'.ledger ≡ s.ledger ++ record { version = version; name = name } ∷ []
      go none f = cc
      go (some rest) f = appended version name rest s s' f

  migrate_file-Recorded :
      (name : String) (s s' : Migrated S)
      → migrate_file m name (migration_version name) s ≡ (true, s')
      → IsRecorded s'.ledger name × Grows s s'
  unfolding migrate_file
  migrate_file-Recorded name s s' e = go (migration_version name) refl e
    where
      by_case :
          (version : ℤ)
          → migration_version name ≡ some version
          → (b : Bool) → is_applied version s.ledger ≡ b
          → (if b then (true, s) else apply_file m version name (m.read_file name) s) ≡ (true, s')
          → IsRecorded s'.ledger name × Grows s s'
      by_case version at true known f =
          let same : s'.ledger ≡ s.ledger = ap (λ p. p.1.ledger) (sym f) in
          (
            record { version = version; named = at; applied = rw same known },
            record { added = []; same = same ∙ sym (append-nil s.ledger) },
          )
      by_case version at false known f =
          let grown = apply_file-appends version name (m.read_file name) s s' f in
          (
            record {
              version = version;
              named = at;
              applied =
                  rw
                    (
                      grown,
                      any-append (λ r. int_eq r.version version) s.ledger
                          (record { version = version; name = name } ∷ []),
                      known,
                      int_eq_refl version,
                    )
                    refl;
            },
            record { added = record { version = version; name = name } ∷ []; same = grown },
          )

      go :
          (o : Option ℤ)
          → migration_version name ≡ o
          → migrate_file m name o s ≡ (true, s')
          → IsRecorded s'.ledger name × Grows s s'
      go none at f = cc
      go (some version) at f = by_case version at (is_applied version s.ledger) refl f

  Recorded-Grows :
      (s s' : Migrated S) (name : String)
      → Grows s s'
      → IsRecorded s.ledger name
      → IsRecorded s'.ledger name
  Recorded-Grows s s' name g r = record {
    version = r.version;
    named = r.named;
    applied =
        rw (g.same, any-append (λ x. int_eq x.version r.version) s.ledger g.added, r.applied) refl;
  }

  go_on-true :
      (k : Migrated S → Bool × Migrated S) (r : Bool × Migrated S) (s' : Migrated S)
      → go_on k r ≡ (true, s')
      → (d : Migrated S) × (r ≡ (true, d)) × (k d ≡ (true, s'))
  go_on-true k (true, d) s' e = (d, refl, e)
  go_on-true k (false, d) s' e = cc

  migrate_each-Recorded :
      (names : List String) (s s' : Migrated S)
      → migrate_each m names s ≡ (true, s')
      → All (IsRecorded s'.ledger) names × Grows s s'
  unfolding migrate_each
  migrate_each-Recorded [] s s' e =
      (tt, record { added = []; same = ap (λ p. p.1.ledger) (sym e) ∙ sym (append-nil s.ledger) })
  migrate_each-Recorded (name ∷ names) s s' e =
      let (d, first, rest) =
        go_on-true (λ x. migrate_each m names x) (migrate_file m name (migration_version name) s) s'
          e in
      let (recorded, grown) = migrate_file-Recorded name s d first in
      let (others, more) = migrate_each-Recorded names d s' rest in
      (
        (Recorded-Grows d s' name more recorded, others),
        record {
          added = grown.added ++ more.added;
          same =
              more.same
              ∙ ap (λ l. l ++ more.added) grown.same
              ∙ append_assoc s.ledger grown.added more.added;
        },
      )

  migrate_each-settled :
      (names : List String) (s : Migrated S)
      → All (IsRecorded s.ledger) names
      → migrate_each m names s ≡ (true, s)
  unfolding migrate_each migrate_file
  migrate_each-settled [] s h = refl
  migrate_each-settled (name ∷ names) s h =
      rw (h.0.named, h.0.applied) (migrate_each-settled names s h.1)

-- After a run of Up that succeeded, a further run with the same files succeeds and changes nothing,
-- whatever SQL would do by then.
pub up-up :
    {S : Type 0} (m : Migrations S) (exec : String → S → Option S) (s s' : Migrated S)
    → up m s ≡ (true, s')
    → up (record m { exec = exec }) s' ≡ (true, s')
unfolding up
up-up m exec s s' e =
    migrate_each-settled (record m { exec = exec }) _ s' (migrate_each-Recorded m _ s s' e).0
