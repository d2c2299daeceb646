-- ===== src/Store/Auth/Refresh/Outcome.antt =====
-- What RotateRefresh has found and changed where it does not fail.
use along.Prelude.{
  ℕ, ◌≡◌, refl, true, false, ◌&&◌, Option, none, some, [], ◌∷◌, ◌++◌, ◌==◌, find, update, any,
  count, is_some, arith, ==_iff, sym, ◌∙◌, subst, any-update,
}
use along.Store.Result.{ok, invalid_refresh, unique_violation}
use along.Store.Schema.{Db, Env, AccountRow, is_active, RefreshRow}
use along.Store.Tx.{◌>>=◌, Post, Post-bind, Post-found, Post-guard, Post-insert, Post-if}
use along.Store.Auth.Logins.{is_install, insert_refresh, new_refresh, identity_of}
use along.Store.Auth.Refresh.{
  Rotation, rotated, reused, Presented, present_refresh, revoke_family, revoke_token, revoke_reused,
  is_good, is_unconsumed, consume_token, touch, seen_session, seen_install, renew, rotate_refresh,
}

-- The rows that the SELECT joins.
pub record IsPresented (id : ℕ) (db : Db) (p : Presented) : Type 0 where
  pub token : find (λ r. r.id == id) db.refresh_tokens ≡ some p.token
  pub session : find (λ s. s.id == p.token.auth_session_id) db.auth_sessions ≡ some p.session
  pub install :
      find (is_install p.session.device_install_id p.session.account_id) db.device_installs
      ≡ some p.install
  pub account :
      (a : AccountRow) × (find (λ a. a.id == p.session.account_id && is_active a.status) db.accounts
        ≡ some a)

present_refresh-Post :
    (id : ℕ) (db : Db) → Post (λ p db'. (db' ≡ db) × IsPresented id db p) (present_refresh id db)
unfolding present_refresh ◌>>=◌
present_refresh-Post id db =
    Post-found Q invalid_refresh db (find (λ r. r.id == id) db.refresh_tokens) _ λ token t.
      Post-found Q invalid_refresh db (find (λ s. s.id == token.auth_session_id) db.auth_sessions) _
        λ session s.
          Post-found Q invalid_refresh db
            (find (is_install session.device_install_id session.account_id) db.device_installs) _
            λ install i.
              Post-found Q invalid_refresh db
                (find (λ a. a.id == session.account_id && is_active a.status) db.accounts)
                (λ _ db'. ok (record { token = token; session = session; install = install }, db'))
                λ account a.
                  (refl, record { token = t; session = s; install = i; account = (account, a) })
  where
    Q : Presented → Db → Type 0
    Q p db' = (db' ≡ db) × IsPresented id db p

pub present_refresh-ok :
    (id : ℕ) (db : Db) (p : Presented) → IsPresented id db p → present_refresh id db ≡ ok (p, db)
unfolding present_refresh ◌>>=◌
present_refresh-ok id db p h = ground (arith, h.account.1)

-- The database after a rotation.
unfoldable pub renewed : Env → ℕ → ℕ → ℕ → ℕ → Presented → Db → Db
renewed env old_id new_id new_hash new_expires_at p db = record db {
  refresh_tokens =
      update (is_unconsumed old_id) (consume_token env.now new_id) db.refresh_tokens
      ++ new_refresh new_id p.token.family_id p.session.id (some old_id) new_hash new_expires_at
        ∷ [];
  auth_sessions = update (λ s. s.id == p.session.id) (seen_session env.now) db.auth_sessions;
  device_installs =
      update (is_install p.session.device_install_id p.session.account_id) (seen_install env.now)
        db.device_installs;
}

-- The database after a reuse was found.
unfoldable pub family_revoked : Env → Presented → Db → Db
family_revoked env p db = record db {
  refresh_tokens =
      update (λ r. r.family_id == p.token.family_id) (revoke_token env.now) db.refresh_tokens;
  auth_sessions = update (λ s. s.id == p.session.id) (revoke_reused env.now) db.auth_sessions;
}

none_of : {A : Type 0} (o : Option A) → is_some o ≡ false → o ≡ none
none_of none h = refl
none_of (some a) h = cc

consume_token-id :
    (now id new_id : ℕ) (r : RefreshRow)
    → ((consume_token now id r).id == new_id) ≡ (r.id == new_id)
unfolding consume_token
consume_token-id now id new_id r = refl

module _ (env : Env) (old_id old_hash new_id new_hash new_expires_at : ℕ) (db : Db) where
  -- What a call that does not fail has found.
  pub record Found (p : Presented) : Type 0 where
    pub presented : IsPresented old_id db p
    pub hash : (p.token.token_hash == old_hash) ≡ true

  pub record Renewed (p : Presented) (db' : Db) : Type 0 where
    pub found : Found p
    pub unconsumed : p.token.consumed_at ≡ none
    pub good : is_good env p ≡ true
    pub one : count (is_unconsumed old_id) db.refresh_tokens ≡ 1
    pub fresh : any (λ r. r.id == new_id) db.refresh_tokens ≡ false
    pub after : db' ≡ renewed env old_id new_id new_hash new_expires_at p db

  pub record Reused (p : Presented) (db' : Db) : Type 0 where
    pub found : Found p
    pub consumed : is_some p.token.consumed_at ≡ true
    pub after : db' ≡ family_revoked env p db

  abbrev pub Outcome : Rotation → Db → Type 0
  Outcome (rotated i) db' =
      (p : Presented) × (i
        ≡ identity_of p.session.account_id p.session.id p.session.device_install_id)
      × Renewed p db'
  Outcome reused db' = (p : Presented) × Reused p db'

  renew-Post :
      (p : Presented)
      → Found p
      → is_some p.token.consumed_at ≡ false
      → Post Outcome (renew env old_id new_id new_hash new_expires_at p db)
  unfolding renew touch ◌>>=◌ insert_refresh new_refresh renewed
  renew-Post p found open_token = Post-guard Outcome invalid_refresh db (is_good env p) _ λ good.
      Post-guard Outcome invalid_refresh marked
        (count (is_unconsumed old_id) db.refresh_tokens == 1) _
        λ one.
          Post-insert Outcome unique_violation marked
            (any (λ r. r.id == new_id) marked.refresh_tokens) _ (touch env p)
            λ fresh. (
              p,
              refl,
              record {
                found = found;
                unconsumed = none_of p.token.consumed_at open_token;
                good = good;
                one = (==_iff _ 1).0 one;
                fresh =
                    sym (
                      any-update (λ r. r.id == new_id) (is_unconsumed old_id)
                        (consume_token env.now new_id) (consume_token-id env.now new_id new_id)
                        db.refresh_tokens)
                    ∙ fresh;
                after = refl;
              },
            )
    where
      marked : Db
      marked = record db {
        refresh_tokens =
            update (is_unconsumed old_id) (consume_token env.now new_id) db.refresh_tokens;
      }

  rotate_refresh-Post :
      Post Outcome (rotate_refresh env old_id old_hash new_id new_hash new_expires_at db)
  unfolding rotate_refresh revoke_family ◌>>=◌ family_revoked
  rotate_refresh-Post =
      Post-bind (λ p db'. (db' ≡ db) × IsPresented old_id db p) Outcome (present_refresh old_id) _
        db (present_refresh-Post old_id db)
        λ p db' h. rw h.0 (
          Post-guard Outcome invalid_refresh db (p.token.token_hash == old_hash) _ λ hash.
            Post-if Outcome db (is_some p.token.consumed_at) (revoke_family env p)
              (renew env old_id new_id new_hash new_expires_at p)
              (λ consumed. (
                p,
                record {
                  found = record { presented = h.1; hash = hash };
                  consumed = consumed;
                  after = refl;
                },
              ))
              (λ open_token. renew-Post p (record { presented = h.1; hash = hash }) open_token))

  pub rotate_refresh-Outcome :
      (r : Rotation) (db' : Db)
      → rotate_refresh env old_id old_hash new_id new_hash new_expires_at db ≡ ok (r, db')
      → Outcome r db'
  rotate_refresh-Outcome r db' e = subst (Post Outcome) e rotate_refresh-Post
