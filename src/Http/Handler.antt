-- ===== src/Http/Handler.antt =====
-- server/internal/apperror/error.go and mapError of server/internal/httpapi/respond.go, and what a
-- handler is: a function of the database, which keeps what its calls of the store have committed
-- also where the handler fails later on.
use along.Prelude.{ℕ, String, Bool, true, false, ◌≡◌, refl, sym, ap}
use along.Store.Result.{
  StoreError, Result, ok, err, not_found, conflict, version_mismatch, refresh_reuse,
  invalid_refresh, already_paired, active_session, cooldown, unique_violation, check_violation,
  decode_error,
}
use along.Store.Schema.{Db}
use along.Store.Tx.{Tx, Keeps, after, Keeps-after}

-- Error; `resync_required` is the one key of Details. RetryAfter is never set.
pub record AppError : Type 0 where
  pub status : ℕ
  pub code : String
  pub message : String
  pub resync_required : Bool

-- New
unfoldable pub new_error : ℕ → String → String → AppError
new_error status code message = record {
  status = status;
  code = code;
  message = message;
  resync_required = false;
}

unfoldable pub err_unauthorized : AppError
unfolding new_error
err_unauthorized = new_error 401 "unauthorized" "Sign in to continue."

unfoldable pub err_not_found : AppError
unfolding new_error
err_not_found = new_error 404 "not_found" "The requested resource was not found."

unfoldable pub err_conflict : AppError
unfolding new_error
err_conflict = new_error 409 "conflict" "The request conflicts with current state."

unfoldable pub err_validation : AppError
unfolding new_error
err_validation = new_error 422 "validation_error" "Check the request and try again."

-- What As makes of an error of another kind.
unfoldable pub internal_error : AppError
unfolding new_error
internal_error = new_error 500 "internal_error" "Something went wrong."

-- An error that reaches a handler; `other` is one of a library, such as crypto/rand.
pub data Failure : Type 0 where
  app : AppError → Failure
  store : StoreError → Failure
  other : Failure

unfoldable pub map_error : Failure → AppError
unfolding new_error err_not_found err_conflict internal_error
map_error (app e) = e
map_error (store not_found) = err_not_found
map_error (store conflict) = err_conflict
map_error (store version_mismatch) = record {
  status = 409;
  code = "version_conflict";
  message = "The session changed on another device. Sync and try again.";
  resync_required = true;
}
map_error (store already_paired) =
    new_error 409 "already_paired" "This account already belongs to a pair."
map_error (store active_session) =
    new_error 409 "active_session_exists" "A focus session is already running."
map_error (store cooldown) = new_error 429 "cheer_cooldown" "Give the last cheer a moment."
map_error (store unique_violation) = err_conflict
map_error (store refresh_reuse) = internal_error
map_error (store invalid_refresh) = internal_error
map_error (store check_violation) = internal_error
map_error (store decode_error) = internal_error
map_error other = internal_error

pub data Outcome (A : Type 0) : Type 0 where
  done : A → Outcome A
  failed : Failure → Outcome A

abbrev pub Handler : Type 0 → Type 0
Handler A = Db → Outcome A × Db

module _ {A : Type 0} where
  abbrev pub pure : A → Handler A
  pure a db = (done a, db)

  abbrev pub fail : Failure → Handler A
  fail f db = (failed f, db)

  abbrev settled : Db → Result (A × Db) → Outcome A × Db
  settled db (ok (a, db')) = (done a, db')
  settled db (err e) = (failed (store e), db)

  -- A call of the store, a transaction of its own.
  abbrev pub call : Tx A → Handler A
  call m db = settled db (m db)

  -- The outcome of a call, for a caller that goes on after an error.
  unfoldable pub attempt : Handler A → Handler (Outcome A)
  attempt h db = let (o, db') = h db in (done o, db')

abbrev then_run : {A B : Type 0} → (A → Handler B) → Outcome A × Db → Outcome B × Db
then_run k (done a, db) = k a db
then_run k (failed f, db) = (failed f, db)

infixl 5 ◌>>=◌ ◌>>◌
unfoldable pub ◌>>=◌ : {A B : Type 0} → Handler A → (A → Handler B) → Handler B
◌>>=◌ h k db = then_run k (h db)

abbrev pub ◌>>◌ : {B : Type 0} → Handler (Unit {0}) → Handler B → Handler B
h >> k = h >>= λ _. k

abbrev pub guard : Bool → AppError → Handler (Unit {0})
guard true e db = (done tt, db)
guard false e db = (failed (app e), db)

-- `h` preserves `P`, whatever its outcome.
pub record Preserves {A : Type 0} (P : Db → Type 0) (h : Handler A) : Type 0 where
  pub run : (db : Db) → P db → P (h db).1

settled_after : {A : Type 0} (db : Db) (r : Result (A × Db)) → (settled db r).1 ≡ after (λ _. r) db
settled_after db (ok (a, db')) = refl
settled_after db (err e) = refl

module _ {P : Db → Type 0} where
  pub Preserves-call : {A : Type 0} (m : Tx A) → Keeps P m → Preserves P (call m)
  Preserves-call m keeps = record {
    run = λ db p. rw (settled_after db (m db)) (Keeps-after m keeps db p);
  }

  pub Preserves-done : {A : Type 0} (o : Db → Outcome A) → Preserves P (λ db. (o db, db))
  Preserves-done o = record { run = λ db p. p }

  pub Preserves-guard : (b : Bool) (e : AppError) → Preserves P (guard b e)
  Preserves-guard true e = record { run = λ db p. p }
  Preserves-guard false e = record { run = λ db p. p }

  pub Preserves-attempt : {A : Type 0} (h : Handler A) → Preserves P h → Preserves P (attempt h)
  unfolding attempt
  Preserves-attempt h k = record { run = k.run }

  then_run-Preserves :
      {A B : Type 0} (k : A → Handler B)
      → ((a : A) → Preserves P (k a))
      → (o : Outcome A) (db : Db) → P db
      → P (then_run k (o, db)).1
  then_run-Preserves k keeps (done a) db p = (keeps a).run db p
  then_run-Preserves k keeps (failed f) db p = p

  pub Preserves-bind :
      {A B : Type 0} (h : Handler A) (k : A → Handler B)
      → Preserves P h
      → ((a : A) → Preserves P (k a))
      → Preserves P (h >>= k)
  unfolding ◌>>=◌
  Preserves-bind h k keeps later = record {
    run = λ db p. then_run-Preserves k later (h db).0 (h db).1 (keeps.run db p);
  }

  -- What the first step reaches, whatever its outcome, is what the sequence reaches.
  pub bind-reaches :
      {A B : Type 0} (h : Handler A) (k : A → Handler B)
      → ((a : A) → Preserves P (k a))
      → (db : Db) → P (h db).1
      → P ((h >>= k) db).1
  unfolding ◌>>=◌
  bind-reaches h k later db p = then_run-Preserves k later (h db).0 (h db).1 p

-- What a sequence that is done has done.
pub >>=-done :
    {A B : Type 0} (h : Handler A) (k : A → Handler B) (db : Db) (b : B) (db' : Db)
    → (h >>= k) db ≡ (done b, db')
    → (a : A) × (d : Db) × (h db ≡ (done a, d)) × (k a d ≡ (done b, db'))
unfolding ◌>>=◌
>>=-done {A} {B} h k db b db' e = go (h db) refl e
  where
    go :
        (r : Outcome A × Db)
        → h db ≡ r
        → then_run k r ≡ (done b, db')
        → (a : A) × (d : Db) × (h db ≡ (done a, d)) × (k a d ≡ (done b, db'))
    go (done a, d) at e' = (a, d, at, e')
    go (failed f, d) at e' = cc

pub guard-done :
    (b : Bool) (e : AppError) (db : Db) (u : Unit {0}) (db' : Db)
    → guard b e db ≡ (done u, db')
    → (b ≡ true) × (db' ≡ db)
guard-done true e db u db' h = (refl, sym (ap (λ p. p.1) h))
guard-done false e db u db' h = cc

pub pure-done :
    {A : Type 0} (a : A) (db : Db) (b : A) (db' : Db)
    → pure a db ≡ (done b, db')
    → (a ≡ b) × (db' ≡ db)
pure-done a db b db' e = (cc, sym (ap (λ p. p.1) e))

pub attempt-done :
    {A : Type 0} (h : Handler A) (db : Db) (o : Outcome A) (db' : Db)
    → attempt h db ≡ (done o, db')
    → h db ≡ (o, db')
unfolding attempt
attempt-done {A} h db o db' e = go (h db) e
  where
    go : (r : Outcome A × Db) → pure r.0 r.1 ≡ (done o, db') → r ≡ (o, db')
    go (x, y) e' = let (same, at) = pure-done x y o db' e' in cc

-- A call whose outcome is a value was committed.
pub call-done :
    {A : Type 0} (m : Tx A) (db : Db) (a : A) (db' : Db)
    → call m db ≡ (done a, db')
    → m db ≡ ok (a, db')
call-done {A} m db a db' e = go (m db) e
  where
    go : (r : Result (A × Db)) → settled db r ≡ (done a, db') → r ≡ ok (a, db')
    go (ok (x, d)) e' = let (same, at) = pure-done x d a db' e' in cc
    go (err x) e' = cc

-- What holds of the database where a handler fails.
abbrev pub OnFailure : {A : Type 0} → (Db → Type 0) → Outcome A × Db → Type 0
OnFailure P (done a, db) = Unit {0}
OnFailure P (failed f, db) = P db

module _ (P : Db → Type 0) where
  pub OnFailure-bind :
      {A B : Type 0} (h : Handler A) (k : A → Handler B) (db : Db)
      → OnFailure P (h db)
      → ((a : A) (db' : Db) → h db ≡ (done a, db') → OnFailure P (k a db'))
      → OnFailure P ((h >>= k) db)
  unfolding ◌>>=◌
  OnFailure-bind {A} {B} h k db first next = go (h db) refl first
    where
      go : (r : Outcome A × Db) → h db ≡ r → OnFailure P r → OnFailure P (then_run k r)
      go (done a, d) at p = next a d at
      go (failed f, d) at p = p

  pub OnFailure-call : {A : Type 0} (m : Tx A) (db : Db) → P db → OnFailure P (call m db)
  OnFailure-call {A} m db p = go (m db)
    where
      go : (r : Result (A × Db)) → OnFailure P (settled db r)
      go (ok (a, d)) = tt
      go (err e) = p

  -- A first step that leaves the database as it was.
  pub OnFailure-bind_read :
      {A B : Type 0} (h : Handler A) (k : A → Handler B) (db : Db)
      → (h db).1 ≡ db
      → P db
      → ((a : A) → OnFailure P (k a db))
      → OnFailure P ((h >>= k) db)
  unfolding ◌>>=◌
  OnFailure-bind_read {A} {B} h k db same p next = go (h db) same
    where
      go : (r : Outcome A × Db) → r.1 ≡ db → OnFailure P (then_run k r)
      go (done a, d) at = rw at (next a)
      go (failed f, d) at = rw at p

pub guard-reads : (b : Bool) (e : AppError) (db : Db) → (guard b e db).1 ≡ db
guard-reads true e db = refl
guard-reads false e db = refl
