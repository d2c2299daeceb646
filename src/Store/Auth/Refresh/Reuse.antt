-- ===== src/Store/Auth/Refresh/Reuse.antt =====
-- A refresh token is good for one rotation, and its reuse ends the whole family.
use along.Prelude.{
  ℕ, ◌≡◌, ◌≢◌, refl, sym, All, All-find, All-update_cases, ◌∙◌, true, false, some, ◌==◌, find,
  is_none, is_some, arith, ==_refl, subst, find-holds, find-update_by, find-append,
}
use along.Domain.Models.{AuthIdentity}
use along.Store.Result.{ok}
use along.Store.Schema.{Db, Env, RefreshRow}
use along.Store.Tx.{◌>>=◌, bind-ok}
use along.Store.Auth.Logins.{is_install}
use along.Store.Auth.Refresh.{
  rotated, reused, Presented, present_refresh, revoke_family, revoke_token, is_good, is_unconsumed,
  consume_token, seen_session, seen_install, rotate_refresh,
}
use along.Store.Auth.Refresh.Outcome.{
  IsPresented, present_refresh-ok, renewed, family_revoked, Renewed, rotate_refresh-Outcome,
}

rotate_refresh-of-consumed :
    (env : Env) (id hash new_id new_hash expires : ℕ) (db : Db) (p : Presented)
    → IsPresented id db p
    → (p.token.token_hash == hash) ≡ true
    → is_some p.token.consumed_at ≡ true
    → rotate_refresh env id hash new_id new_hash expires db ≡ ok (reused, family_revoked env p db)
unfolding rotate_refresh revoke_family family_revoked ◌>>=◌
rotate_refresh-of-consumed env id hash new_id new_hash expires db p h same used =
    bind-ok (present_refresh id) _ db p db (present_refresh-ok id db p h) ∙ rw same (rw used refl)

-- What a later call finds under the token that a rotation has consumed.
presented_again : Env → ℕ → Presented → Presented
presented_again env new_id p = record {
  token = consume_token env.now new_id p.token;
  session = seen_session env.now p.session;
  install = seen_install env.now p.install;
}

module _ (env : Env) (id hash new_id new_hash expires : ℕ) (db db' : Db) where
  Renewed-IsPresented :
      (p : Presented)
      → Renewed env id hash new_id new_hash expires db p db'
      → IsPresented id db' (presented_again env new_id p)
  unfolding renewed consume_token seen_session seen_install is_unconsumed presented_again
  Renewed-IsPresented p h = rw h.after (record {
    token = find-append _ _ _ _ (
        find-update_by (λ r. r.id == id) (is_unconsumed id) (consume_token env.now new_id)
          (λ r. refl) db.refresh_tokens p.token h.found.presented.token
        ∙ rw (find-holds _ db.refresh_tokens p.token h.found.presented.token, h.unconsumed) refl);
    session =
        find-update_by (λ s. s.id == p.token.auth_session_id) (λ s. s.id == p.session.id)
          (seen_session env.now) (λ s. refl) db.auth_sessions p.session h.found.presented.session
        ∙ rw (==_refl p.session.id) refl;
    install =
        find-update_by (is_install p.session.device_install_id p.session.account_id)
          (is_install p.session.device_install_id p.session.account_id) (seen_install env.now)
          (λ d. refl) db.device_installs p.install h.found.presented.install
        ∙ rw (find-holds _ db.device_installs p.install h.found.presented.install) refl;
    account = h.found.presented.account;
  })

  -- A token that was rotated is taken as reused when it is presented again.
  pub rotate_refresh-twice :
      (later : Env) (next_id next_hash next_expires : ℕ) (i : AuthIdentity)
      → rotate_refresh env id hash new_id new_hash expires db ≡ ok (rotated i, db')
      → (db'' : Db) × (rotate_refresh later id hash next_id next_hash next_expires db'
          ≡ ok (reused, db''))
  unfolding presented_again consume_token
  rotate_refresh-twice later next_id next_hash next_expires i e =
      let (p, _, h) =
        rotate_refresh-Outcome env id hash new_id new_hash expires db (rotated i) db' e in
      (
        family_revoked later (presented_again env new_id p) db',
        rotate_refresh-of-consumed later id hash next_id next_hash next_expires db'
            (presented_again env new_id p) (Renewed-IsPresented p h) h.found.hash refl,
      )

abbrev RevokedIn : ℕ → RefreshRow → Type 0
RevokedIn family r = (r.family_id == family) ≡ true → is_none r.revoked_at ≡ false

family_revoked-All :
    (env : Env) (p : Presented) (db : Db)
    → All (RevokedIn p.token.family_id) (family_revoked env p db).refresh_tokens
unfolding family_revoked revoke_token
family_revoked-All env p db =
    All-update_cases (RevokedIn p.token.family_id) (λ r. r.family_id == p.token.family_id)
      (revoke_token env.now) (λ r hit same. refl) (λ r miss same. cc) db.refresh_tokens

-- Where the family of a token was found reused, no token of the family can be rotated any more.
pub rotate_refresh-ends_family :
    (env later : Env) (id hash new_id new_hash expires : ℕ) (db db' db'' : Db)
    (other other_hash next_id next_hash next_expires : ℕ) (t u : RefreshRow) (i : AuthIdentity)
    → rotate_refresh env id hash new_id new_hash expires db ≡ ok (reused, db')
    → find (λ r. r.id == id) db.refresh_tokens ≡ some t
    → find (λ r. r.id == other) db'.refresh_tokens ≡ some u
    → u.family_id ≡ t.family_id
    → rotate_refresh later other other_hash next_id next_hash next_expires db'
      ≢ ok (rotated i, db'')
unfolding is_good
rotate_refresh-ends_family env later id hash new_id new_hash expires db db' db'' other other_hash
      next_id next_hash next_expires t u i e at at' same again =
    let (p, h) = rotate_refresh-Outcome env id hash new_id new_hash expires db reused db' e in
    let (q, _, k) =
      rotate_refresh-Outcome later other other_hash next_id next_hash next_expires db' (rotated i)
        db'' again in
    let p_eq : some t ≡ some p.token = sym at ∙ h.found.presented.token in
    let q_eq : some u ≡ some q.token = sym at' ∙ k.found.presented.token in
    let dead : RevokedIn p.token.family_id q.token =
      All-find (RevokedIn p.token.family_id) (λ r. r.id == other) db'.refresh_tokens
        (subst (λ d. All (RevokedIn p.token.family_id) d.refresh_tokens) (sym h.after)
          (family_revoked-All env p db))
        k.found.presented.token in
    ground (arith, k.good, dead (ground arith))
