-- ===== src/Store/Auth/History.antt =====
-- What holds of the tables after any sequence of the calls on sign-ins.
use along.Prelude.{ℕ, refl, subst, sym, none, Bool, update, List, [], ◌∷◌, arith}
use along.Domain.Models.{AuthIdentity}
use along.Store.Schema.{Db, Env, AccountRow, RefreshRow, AuthSessionRow}
use along.Store.Tx.{Keeps, after, Keeps-after, Triple-post}
use along.Store.Auth.Accounts.{insert_account}
use along.Store.Auth.Logins.{insert_auth_session, insert_refresh, new_refresh}
use along.Store.Auth.Refresh.{Rotation, rotated, reused, revoke_reused, seen_session}
use along.Store.Auth.Refresh.Outcome.{Outcome, rotate_refresh-Outcome, renewed, family_revoked}
use along.Store.Auth.Refresh.Family.{
  IsChained, signed_in-IsChained, revoked-IsChained, rotated-IsChained,
}
use along.Store.Auth.Calls.{AuthCall, perform, run_auth}
use along.Store.Auth.Closed.{IsClosed, IsRevoking, perform-Keeps}
use along.Store.Auth.Ended.{IsEnded, Ended, update-IsEnded, append-IsEnded}

run_auth-Keeps :
    {P : Db → Type 0}
    → IsClosed P
    → (calls : List (Env × AuthCall)) (db : Db) → P db
    → P (run_auth calls db)
unfolding run_auth
run_auth-Keeps closed [] db h = h
run_auth-Keeps closed ((env, call) ∷ rest) db h =
    run_auth-Keeps closed rest (after (perform env call) db)
      (Keeps-after (perform env call) (perform-Keeps closed env call) db h)

abbrev pub Chained : Db → Type 0
Chained db = IsChained db.refresh_tokens

insert_refresh-Chained :
    (id session hash expires : ℕ)
    → Keeps Chained (insert_refresh (new_refresh id id session none hash expires))
unfolding insert_refresh new_refresh
insert_refresh-Chained id session hash expires = record {
  run = λ db h a db' e.
      subst IsChained (ground arith)
        (signed_in-IsChained id session hash expires db.refresh_tokens (ground arith) h);
}

insert_account-Chained : (row : AccountRow) → Keeps Chained (insert_account row)
unfolding insert_account
insert_account-Chained row = record { run = λ db h a db' e. subst IsChained (ground arith) h }

insert_auth_session-Chained : (row : AuthSessionRow) → Keeps Chained (insert_auth_session row)
unfolding insert_auth_session
insert_auth_session-Chained row = record { run = λ db h a db' e. subst IsChained (ground arith) h }

renewed-Chained :
    (env : Env) (old_id old_hash new_id new_hash expires : ℕ) (db db' : Db) (r : Rotation)
    → Chained db
    → Outcome env old_id old_hash new_id new_hash expires db r db'
    → Chained db'
unfolding renewed family_revoked
renewed-Chained env old_id old_hash new_id new_hash expires db db' (rotated i) h (p, _, k) =
    rw k.after (
      rotated-IsChained old_id new_id p.session.id new_hash expires env.now p.token
        db.refresh_tokens k.found.presented.token k.unconsumed h)
renewed-Chained env old_id old_hash new_id new_hash expires db db' reused h (p, k) =
    rw k.after (revoked-IsChained _ env.now db.refresh_tokens h)

Chained-IsClosed : IsClosed Chained
Chained-IsClosed = record {
  quiet = λ m same. record { run = λ db h a db' e. subst IsChained (sym (same db a db' e).0) h };
  account = insert_account-Chained;
  activating = λ q f k. Triple-post _ (λ db h. h);
  session = insert_auth_session-Chained;
  token = insert_refresh-Chained;
  rotation = λ env old_id old_hash new_id new_hash expires. record {
    run = λ db h a db' e.
        renewed-Chained env old_id old_hash new_id new_hash expires db db' a h
          (rotate_refresh-Outcome env old_id old_hash new_id new_hash expires db a db' e);
  };
  revoking = λ q f k. Triple-post _ (λ db h. h);
}

-- Whatever calls of the authentication store but DeletePendingAccount are made, each family of
-- refresh tokens keeps at most one token that is not consumed, and a family whose first token is not
-- stored has none.
pub run_auth-Chained :
    (calls : List (Env × AuthCall)) (db : Db) → Chained db → Chained (run_auth calls db)
run_auth-Chained = run_auth-Keeps Chained-IsClosed

module _ (c : AuthIdentity) where
  revoking-Ended :
      (q : AuthSessionRow → Bool) (f : AuthSessionRow → AuthSessionRow)
      → IsRevoking f
      → (rows : List AuthSessionRow) → IsEnded c rows
      → IsEnded c (update q f rows)
  revoking-Ended q f k =
      update-IsEnded c q f
        (λ s. (ground (arith, k.id s), ground (arith, k.id s, k.account s, k.install s))) k.stays

  renewed-Ended :
      (env : Env) (old_id old_hash new_id new_hash expires : ℕ) (db db' : Db) (r : Rotation)
      → Ended c db
      → Outcome env old_id old_hash new_id new_hash expires db r db'
      → Ended c db'
  unfolding renewed family_revoked seen_session revoke_reused
  renewed-Ended env old_id old_hash new_id new_hash expires db db' (rotated i) h (p, _, k) =
      rw k.after (
        update-IsEnded c _ (seen_session env.now) (λ s. (refl, refl)) (λ s dead. dead)
          db.auth_sessions h)
  renewed-Ended env old_id old_hash new_id new_hash expires db db' reused h (p, k) = rw k.after (
      update-IsEnded c _ (revoke_reused env.now) (λ s. (refl, refl)) (λ s dead. refl)
        db.auth_sessions h)

  insert_account-Ended : (row : AccountRow) → Keeps (Ended c) (insert_account row)
  unfolding insert_account
  insert_account-Ended row = record { run = λ db h a db' e. subst (IsEnded c) (ground arith) h }

  insert_auth_session-Ended : (row : AuthSessionRow) → Keeps (Ended c) (insert_auth_session row)
  unfolding insert_auth_session
  insert_auth_session-Ended row = record {
    run = λ db h a db' e.
        subst (IsEnded c) (ground arith) (append-IsEnded c row db.auth_sessions (ground arith) h);
  }

  insert_refresh-Ended : (row : RefreshRow) → Keeps (Ended c) (insert_refresh row)
  unfolding insert_refresh
  insert_refresh-Ended row = record { run = λ db h a db' e. subst (IsEnded c) (ground arith) h }

  pub Ended-IsClosed : IsClosed (Ended c)
  Ended-IsClosed = record {
    quiet =
        λ m same. record { run = λ db h a db' e. subst (IsEnded c) (sym (same db a db' e).1) h };
    account = insert_account-Ended;
    activating = λ q f k. Triple-post _ (λ db h. h);
    session = insert_auth_session-Ended;
    token = λ id session hash expires. insert_refresh-Ended _;
    rotation = λ env old_id old_hash new_id new_hash expires. record {
      run = λ db h a db' e.
          renewed-Ended env old_id old_hash new_id new_hash expires db db' a h
            (rotate_refresh-Outcome env old_id old_hash new_id new_hash expires db a db' e);
    };
    revoking = λ q f k. Triple-post _ (λ db h. revoking-Ended q f k db.auth_sessions h);
  }

  pub run_auth-Ended :
      (calls : List (Env × AuthCall)) (db : Db) → Ended c db → Ended c (run_auth calls db)
  run_auth-Ended = run_auth-Keeps Ended-IsClosed
