-- ===== src/Service/Reuse.antt =====
-- What a client meets who presents a refresh token twice.
use along.Prelude.{ℕ, ◌+◌, ◌≡◌, refl, ap, ◌∙◌, String, Option, none, some}
use along.Domain.Models.{Account, AuthIdentity}
use along.Store.Result.{ok}
use along.Store.Schema.{Db, Env}
use along.Store.Tx.{Keeps, Keeps-bind, Keeps-gets, Keeps-or_fail}
use along.Store.Auth.Accounts.{get_account}
use along.Store.Auth.Refresh.{Rotation, rotated, reused, rotate_refresh}
use along.Store.Auth.Refresh.Reuse.{rotate_refresh-twice}
use along.Http.Handler.{
  Outcome, done, failed, app, attempt, ◌>>=◌, >>=-done, pure-done, attempt-done, call-done,
}
use along.Service.{
  or_other, Libraries, OpaqueToken, AuthResult, RecoveryKit, auth_result, refreshed, refresh_with,
  refresh, parse_opaque_token, refresh_reuse_detected,
}

get_account-reads :
    (id : ℕ) (db : Db) (a : Account) (db' : Db) → get_account id db ≡ ok (a, db') → db' ≡ db
unfolding get_account
get_account-reads id db a db' e = keeps.run db refl a db' e
  where
    keeps : Keeps (λ d. d ≡ db) (get_account id)
    keeps =
        Keeps-bind _ _ (Keeps-gets _)
          λ found. Keeps-bind _ _ (Keeps-or_fail _ found) λ row. Keeps-gets _

or_other-reads :
    {A : Type 0} (o : Option A) (db : Db) (a : A) (db' : Db)
    → or_other o db ≡ (done a, db')
    → db' ≡ db
or_other-reads none db a db' e = cc
or_other-reads (some x) db a db' e = (pure-done x db a db' e).1

auth_result-reads :
    (lib : Libraries) (identity : AuthIdentity) (raw : String) (kit : Option RecoveryKit) (db : Db)
    (r : AuthResult) (db' : Db)
    → auth_result lib identity raw kit db ≡ (done r, db')
    → db' ≡ db
unfolding auth_result
auth_result-reads lib identity raw kit db r db' e =
    let (access, d, issued, e1) = >>=-done _ _ db r db' e in
    let (account, d1, read, e2) = >>=-done _ _ d r db' e1 in
    (pure-done _ d1 r db' e2).1
    ∙ get_account-reads identity.account_id d account d1
        (call-done (get_account identity.account_id) d account d1 read)
    ∙ or_other-reads (lib.issue identity) db access d issued

-- A refresh that succeeded rotated the token.
refreshed-rotated :
    (lib : Libraries) (raw : String) (o : Outcome Rotation) (db : Db) (r : AuthResult) (db' : Db)
    → refreshed lib raw o db ≡ (done r, db')
    → (i : AuthIdentity) × (o ≡ done (rotated i)) × (db' ≡ db)
unfolding refreshed
refreshed-rotated lib raw (done (rotated i)) db r db' e =
    (i, refl, auth_result-reads lib i raw none db r db' e)
refreshed-rotated lib raw (done reused) db r db' e = cc
refreshed-rotated lib raw (failed f) db r db' e = cc

refresh_with-twice :
    (lib : Libraries) (env later : Env) (random : Option OpaqueToken) (new : OpaqueToken)
    (token : Option (ℕ × ℕ)) (db : Db) (r : AuthResult) (db' : Db)
    → refresh_with lib env random token db ≡ (done r, db')
    → (refresh_with lib later (some new) token db').0 ≡ failed (app refresh_reuse_detected)
unfolding refresh_with
refresh_with-twice lib env later random new none db r db' e = cc
refresh_with-twice lib env later random new (some (id, hash)) db r db' e =
    let (fresh, d, drawn, e1) = >>=-done _ _ db r db' e in
    let (o, d1, tried, e2) = >>=-done _ _ d r db' e1 in
    let (i, same, at) = refreshed-rotated lib fresh.raw o d1 r db' e2 in
    let rotation : rotate_refresh env id hash fresh.id fresh.hash (env.now + lib.refresh_ttl) d
        ≡ ok (rotated i, d1) =
      call-done (rotate_refresh env id hash fresh.id fresh.hash (env.now + lib.refresh_ttl)) d
        (rotated i) d1 (attempt-done _ d o d1 tried ∙ ap (λ x. (x, d1)) same) in
    let (d2, again) =
      rotate_refresh-twice env id hash fresh.id fresh.hash (env.now + lib.refresh_ttl) d d1 later
        new.id new.hash (later.now + lib.refresh_ttl) i rotation in
    rw at (unfold ◌>>=◌ attempt refreshed in rw again refl)

-- A refresh token that served to refresh a session is refused when it is presented again, whatever
-- token is drawn then, and with the error that tells the client that its session was revoked.
pub refresh-twice :
    (lib : Libraries) (env later : Env) (random : Option OpaqueToken) (new : OpaqueToken)
    (raw : String) (db : Db) (r : AuthResult) (db' : Db)
    → refresh lib env random raw db ≡ (done r, db')
    → (refresh lib later (some new) raw db').0 ≡ failed (app refresh_reuse_detected)
unfolding refresh
refresh-twice lib env later random new raw =
    refresh_with-twice lib env later random new (parse_opaque_token lib raw)
