-- ===== src/Store/Auth/Recovery/Laws.antt =====
-- The recovery codes of an account are those it was last given, and each serves once.
use along.Prelude.{
  ℕ, suc, ◌≡◌, ◌∙◌, refl, sym, subst, ap, String, Bool, true, false, ◌&&◌, none, List, [], ◌∷◌,
  ◌++◌, map, ◌==◌, leb, any, select, update, delete, count, sort_by, insert_by, arith, All,
  All-mono, any-of-All, All-update_cases, delete-All, select_none, select_every, select-append,
  count_zero, any-append, ==_refl, append_assoc, append-nil,
}
use along.Domain.Models.{AuthIdentity, DeviceInfo}
use along.Store.Result.{ok, err, conflict}
use along.Store.Schema.{Db, Env, RecoveryCodeRow}
use along.Store.Tx.{
  Tx, ◌>>=◌, bind-ok, Keeps, Keeps-bind, Post, Post-one, Post-modify, Post-bind, Post-Triple,
}
use along.Store.Auth.Logins.{
  Grant, create_session, insert_code, insert_codes, upsert_install, insert_auth_session,
  insert_refresh,
}
use along.Store.Auth.Recovery.{
  RecoveryCode, unused_codes, is_unused_of, use_recovery_code, is_unused_code, use_row,
  replace_recovery_codes,
}

-- The hashes with their positions.
pub numbered : ℕ → List String → List RecoveryCode
numbered n [] = []
numbered n (hash ∷ hashes) = record { position = n; hash = hash } ∷ numbered (suc n) hashes

code_rows : ℕ → ℕ → List String → List RecoveryCodeRow
code_rows account n [] = []
code_rows account n (hash ∷ hashes) =
    record { account_id = account; position = n; code_hash = hash; used_at = none }
    ∷ code_rows account (suc n) hashes

abbrev taken_from : ℕ → ℕ → RecoveryCodeRow → Bool
taken_from account n c = c.account_id == account && leb n c.position

any-at-from :
    (account n : ℕ) (rows : List RecoveryCodeRow)
    → any (taken_from account n) rows ≡ false
    → (any (λ c. c.account_id == account && c.position == n) rows ≡ false)
      × (any (taken_from account (suc n)) rows ≡ false)
any-at-from account n [] h = (refl, refl)
any-at-from account n (c ∷ cs) h = ground (arith, any-at-from account n cs)

-- Where no later position is taken, the loop inserts every code.
insert_codes-ok :
    (account n : ℕ) (hashes : List String) (db : Db)
    → any (taken_from account n) db.recovery_codes ≡ false
    → insert_codes account n hashes db
      ≡ ok (tt, record db { recovery_codes = db.recovery_codes ++ code_rows account n hashes })
unfolding insert_codes insert_code code_rows ◌>>=◌
insert_codes-ok account n [] db h = rw (append-nil db.recovery_codes) refl
insert_codes-ok account n (hash ∷ hashes) db h =
    bind-ok (insert_code account n hash) _ db tt db1 inserted
    ∙ insert_codes-ok account (suc n) hashes db1 free
    ∙ ap (λ rows. ok (tt, record db { recovery_codes = rows }))
        (append_assoc db.recovery_codes (row ∷ []) (code_rows account (suc n) hashes))
  where
    row : RecoveryCodeRow
    row = record { account_id = account; position = n; code_hash = hash; used_at = none }

    db1 : Db
    db1 = record db { recovery_codes = db.recovery_codes ++ row ∷ [] }

    inserted : insert_code account n hash db ≡ ok (tt, db1)
    inserted = rw (any-at-from account n db.recovery_codes h).0 refl

    free : any (taken_from account (suc n)) (db.recovery_codes ++ row ∷ []) ≡ false
    free = ground (
      arith,
      any-append (taken_from account (suc n)) db.recovery_codes (row ∷ []),
      any-at-from account n db.recovery_codes h,
    )

code_rows-of :
    (account n : ℕ) (hashes : List String)
    → All (λ c. is_unused_of account c ≡ true) (code_rows account n hashes)
unfolding code_rows
code_rows-of account n [] = tt
code_rows-of account n (hash ∷ hashes) =
    (rw (==_refl account) refl, code_rows-of account (suc n) hashes)

abbrev before : RecoveryCodeRow → RecoveryCodeRow → Bool
before a b = leb a.position b.position

-- The rows are in the order of their positions already.
sort-code_rows :
    (account n : ℕ) (hashes : List String)
    → sort_by before (code_rows account n hashes) ≡ code_rows account n hashes
unfolding sort_by insert_by code_rows
sort-code_rows account n [] = refl
sort-code_rows account n (hash ∷ []) = refl
sort-code_rows account n (hash ∷ next ∷ hashes) =
    rw (sort-code_rows account (suc n) (next ∷ hashes)) (ground arith)

map-code_rows :
    (account n : ℕ) (hashes : List String)
    → map (λ c. record { position = c.position; hash = c.code_hash }) (code_rows account n hashes)
      ≡ numbered n hashes
unfolding code_rows numbered
map-code_rows account n [] = refl
map-code_rows account n (hash ∷ hashes) =
    ap (λ cs. record { position = n; hash = hash } ∷ cs) (map-code_rows account (suc n) hashes)

deleted-not :
    (account : ℕ) (q : RecoveryCodeRow → Bool) (rows : List RecoveryCodeRow)
    → ((c : RecoveryCodeRow) → (c.account_id == account) ≡ false → q c ≡ false)
    → All (λ c. q c ≡ false) (delete (λ c. c.account_id == account) rows)
deleted-not account q rows h =
    All-mono _ _ h (delete (λ c. c.account_id == account) rows)
      (delete-All (λ c. c.account_id == account) rows)

select-code_rows :
    (account : ℕ) (hashes : List String) (rows : List RecoveryCodeRow)
    → select
        (is_unused_of account)
        (delete (λ c. c.account_id == account) rows ++ code_rows account 0 hashes)
      ≡ code_rows account 0 hashes
select-code_rows account hashes rows =
    let kept : List RecoveryCodeRow = delete (λ c. c.account_id == account) rows in
    select-append (is_unused_of account) kept (code_rows account 0 hashes)
    ∙ rw
        (select_none (is_unused_of account) kept
          (deleted-not account (is_unused_of account) rows (λ c other. ground arith)))
        (select_every (is_unused_of account) (code_rows account 0 hashes)
          (code_rows-of account 0 hashes))

-- Replacing the recovery codes of an account succeeds, and afterwards its codes are the new hashes
-- in their order, none of them used.
pub replace_recovery_codes-unused :
    (account : ℕ) (hashes : List String) (db : Db)
    → (db' : Db) × (replace_recovery_codes account hashes db ≡ ok (tt, db'))
      × (unused_codes account db' ≡ numbered 0 hashes)
unfolding replace_recovery_codes unused_codes ◌>>=◌
replace_recovery_codes-unused account hashes db = (
  record cleared { recovery_codes = cleared.recovery_codes ++ code_rows account 0 hashes },
  insert_codes-ok account 0 hashes cleared (
      any-of-All (taken_from account 0) cleared.recovery_codes
        (deleted-not account (taken_from account 0) db.recovery_codes (λ c other. ground arith))),
  rw (select-code_rows account hashes db.recovery_codes)
      (rw (sort-code_rows account 0 hashes) (map-code_rows account 0 hashes)),
)
  where
    cleared : Db
    cleared = record db { recovery_codes = delete (λ c. c.account_id == account) db.recovery_codes }

Spent : ℕ → ℕ → Db → Type 0
Spent account position db = count (is_unused_code account position) db.recovery_codes ≡ 0

-- What leaves the table alone.
same_codes-Spent :
    (account position : ℕ) (m : Tx (Unit {0}))
    → ((db : Db) (a : Unit {0}) (db' : Db)
        → m db ≡ ok (a, db')
        → db'.recovery_codes ≡ db.recovery_codes)
    → Keeps (Spent account position) m
unfolding Spent
same_codes-Spent account position m same = record {
  run = λ db h a db' e.
      subst (λ rows. count (is_unused_code account position) rows ≡ 0) (sym (same db a db' e)) h;
}

marked-Spent :
    (env : Env) (account position : ℕ) (db : Db)
    → Spent account position (record db {
      recovery_codes = update (is_unused_code account position) (use_row env) db.recovery_codes;
    })
unfolding Spent is_unused_code use_row
marked-Spent env account position db = count_zero _ _ (
    All-update_cases (λ c. is_unused_code account position c ≡ false)
      (is_unused_code account position) (use_row env) (λ c hit. ground arith) (λ c miss. miss)
      db.recovery_codes)

create_session-Spent :
    (env : Env) (account position other : ℕ) (id : List ℕ) (device : DeviceInfo) (g : Grant)
    → Keeps (Spent account position) (create_session env other id device g)
unfolding create_session upsert_install insert_auth_session insert_refresh
create_session-Spent env account position other id device g =
    Keeps-bind _ _ (same_codes-Spent account position _ (λ db a db' e. ground arith)) λ _.
      Keeps-bind _ _ (same_codes-Spent account position _ (λ db a db' e. ground arith))
        λ _. same_codes-Spent account position _ (λ db a db' e. ground arith)

use_recovery_code-Spent :
    (env : Env) (account position : ℕ) (device : DeviceInfo) (g : Grant) (db : Db)
    → Post
        (λ _ db'. Spent account position db')
        (use_recovery_code env account position device g db)
unfolding use_recovery_code
use_recovery_code-Spent env account position device g db = Post-one Over _ _ _ db (
    Post-modify Over _ _ _ (
      Post-bind Over Over (create_session env account [] device g) _ marked
        (Post-Triple (create_session-Spent env account position account [] device g) marked
          (marked-Spent env account position db))
        (λ a db' h. h)))
  where
    Over : {A : Type 0} → A → Db → Type 0
    Over _ d = Spent account position d

    marked : Db
    marked = record db {
      recovery_codes = update (is_unused_code account position) (use_row env) db.recovery_codes;
    }

-- A recovery code that was used cannot be used again.
pub use_recovery_code-once :
    (env later : Env) (account position : ℕ) (device device' : DeviceInfo) (g g' : Grant)
    (i : AuthIdentity) (db db' : Db)
    → use_recovery_code env account position device g db ≡ ok (i, db')
    → use_recovery_code later account position device' g' db' ≡ err conflict
unfolding use_recovery_code ◌>>=◌ Spent
use_recovery_code-once env later account position device device' g g' i db db' e =
    rw
      (subst (Post (λ _ d. Spent account position d)) e
        (use_recovery_code-Spent env account position device g db))
      refl
