-- ===== src/Store/Auth/Revoked.antt =====
-- What ends a sign-in: logging out, revoking its installation or its passkey, and the reuse of one
-- of its refresh tokens.
use along.Prelude.{
  ℕ, ◌≡◌, ◌∙◌, refl, sym, subst, String, Bool, true, false, ◌&&◌, some, List, [], ◌∷◌, ◌==◌, any,
  find, update, is_none, arith, All, All-of, All-mono, Bool-cases, inl, inr, any-update, find-holds,
}
use along.Domain.Models.{AuthIdentity}
use along.Store.Result.{ok, err, not_found}
use along.Store.Schema.{Db, Env, RefreshRow, AuthSessionRow}
use along.Store.Tx.{Post, Post-one, Post-modify}
use along.Store.Auth.Refresh.{rotate_refresh, reused, Presented, revoke_reused}
use along.Store.Auth.Refresh.Outcome.{rotate_refresh-Outcome, family_revoked}
use along.Store.Auth.Identity.{validate_auth_session}
use along.Store.Auth.Revoke.{
  revoke_credential, revoke_session, revoke_installation, revoke_session_row, end_session_row,
  has_credential, is_unrevoked_session,
}
use along.Store.Auth.Calls.{AuthCall, run_auth}
use along.Store.Auth.Ended.{names, has_id, Dead, IsEnded, Ended, Ended-refused}
use along.Store.Auth.History.{run_auth-Ended}

module _ (env : Env) (c : AuthIdentity) where
  Dead-rows :
      (q : AuthSessionRow → Bool) (f : AuthSessionRow → AuthSessionRow)
      → ((s : AuthSessionRow) → is_none (f s).revoked_at ≡ false)
      → (rows : List AuthSessionRow) → All (λ s. q s ≡ false → Dead c s) rows
      → All (Dead c) (update q f rows)
  unfolding update
  Dead-rows q f ends [] h = tt
  Dead-rows q f ends (s ∷ ss) h = elim (Bool-cases (q s)) [
    | inl hit ↦ rw hit ((λ named. ends s), Dead-rows q f ends ss h.1)
    | inr miss ↦ rw miss (h.0 miss, Dead-rows q f ends ss h.1)
  ]

  -- An UPDATE that revokes what it selects, where it selects all rows of the claim that are not
  -- revoked.
  ends_rows :
      (q : AuthSessionRow → Bool) (f : AuthSessionRow → AuthSessionRow)
      → ((s : AuthSessionRow) → (has_id c (f s) ≡ has_id c s) × (is_none (f s).revoked_at ≡ false))
      → (rows : List AuthSessionRow) → any (has_id c) rows ≡ true
      → All (λ s. q s ≡ false → Dead c s) rows
      → IsEnded c (update q f rows)
  ends_rows q f ends rows known left = record {
    known = any-update (has_id c) q f (λ s. (ends s).0) rows ∙ known;
    dead = Dead-rows q f (λ s. (ends s).1) rows left;
  }

  module _ (db : Db) (known : any (has_id c) db.auth_sessions ≡ true) where
    Over : Unit {0} → Db → Type 0
    Over _ db' = Ended c db'

    revoke_session-Ends :
        (reason : String) → Post Over (revoke_session env c.account_id c.session_id reason db)
    unfolding revoke_session end_session_row is_unrevoked_session Over
    revoke_session-Ends reason = Post-one Over _ _ _ db (
        ends_rows (is_unrevoked_session c.account_id c.session_id) (end_session_row env reason)
          (λ s. (refl, refl)) db.auth_sessions known
          (All-of _ (λ s miss named. ground arith) db.auth_sessions))

    revoke_installation-Ends : Post Over (revoke_installation env c.account_id c.installation_id db)
    unfolding revoke_installation revoke_session_row Over
    revoke_installation-Ends = Post-one Over _ _ _ db (
        Post-modify Over _ _ _ (
          Post-modify Over _ _ _ (
            ends_rows
              (λ s. s.account_id == c.account_id && s.device_install_id == c.installation_id)
              (revoke_session_row env "installation_revoked") (λ s. (refl, refl)) db.auth_sessions
              known (All-of _ (λ s miss named. ground arith) db.auth_sessions))))

    revoke_credential-Ends :
        (id : List ℕ)
        → All (λ s. names c s ≡ true → has_credential id s.credential_id ≡ true) db.auth_sessions
        → Post Over (revoke_credential env c.account_id id db)
    unfolding revoke_credential revoke_session_row Over
    revoke_credential-Ends id opened_by = Post-one Over _ _ _ db (
        Post-modify Over _ _ _ (
          ends_rows (λ s. s.account_id == c.account_id && has_credential id s.credential_id)
            (revoke_session_row env "passkey_revoked") (λ s. (refl, refl)) db.auth_sessions known
            (All-mono _ _ (λ s opened miss named. ground (arith, opened named)) db.auth_sessions
              opened_by)))

    reuse-Ends : (p : Presented) → p.session.id ≡ c.session_id → Ended c (family_revoked env p db)
    unfolding family_revoked revoke_reused
    reuse-Ends p same =
        ends_rows (λ s. s.id == p.session.id) (revoke_reused env.now) (λ s. (refl, refl))
          db.auth_sessions known (All-of _ (λ s miss named. ground arith) db.auth_sessions)

-- The calls that end a sign-in: `c` is what its access tokens claim.
pub data Ends (env : Env) (c : AuthIdentity) (db db' : Db) : Type 0 where
  by_logout :
      (reason : String)
      → revoke_session env c.account_id c.session_id reason db ≡ ok (tt, db')
      → Ends env c db db'
  by_installation :
      revoke_installation env c.account_id c.installation_id db ≡ ok (tt, db') → Ends env c db db'
  by_passkey :
      (id : List ℕ)
      → All (λ s. names c s ≡ true → has_credential id s.credential_id ≡ true) db.auth_sessions
      → revoke_credential env c.account_id id db ≡ ok (tt, db')
      → Ends env c db db'
  by_reuse :
      (id hash new_id new_hash expires : ℕ) (t : RefreshRow)
      → find (λ r. r.id == id) db.refresh_tokens ≡ some t
      → t.auth_session_id ≡ c.session_id
      → rotate_refresh env id hash new_id new_hash expires db ≡ ok (reused, db')
      → Ends env c db db'

pub Ends-Ended :
    (env : Env) (c : AuthIdentity) (db db' : Db)
    → any (λ s. s.id == c.session_id) db.auth_sessions ≡ true
    → Ends env c db db'
    → Ended c db'
unfolding Over
Ends-Ended env c db db' known (by_logout reason e) =
    subst (Post (λ _ d. Ended c d)) e (revoke_session-Ends env c db known reason)
Ends-Ended env c db db' known (by_installation e) =
    subst (Post (λ _ d. Ended c d)) e (revoke_installation-Ends env c db known)
Ends-Ended env c db db' known (by_passkey id opened_by e) =
    subst (Post (λ _ d. Ended c d)) e (revoke_credential-Ends env c db known id opened_by)
Ends-Ended env c db db' known (by_reuse id hash new_id new_hash expires t found same e) =
    let (p, h) = rotate_refresh-Outcome env id hash new_id new_hash expires db reused db' e in
    let token : some t ≡ some p.token = sym found ∙ h.found.presented.token in
    let session : (p.session.id == p.token.auth_session_id) ≡ true =
      find-holds _ db.auth_sessions p.session h.found.presented.session in
    rw h.after (reuse-Ends env c db known p (ground arith))

-- Once a sign-in is ended by logging out, by revoking its installation or its passkey, or by the
-- reuse of one of its refresh tokens, its access tokens are refused at any later time, whatever
-- calls of the authentication store but DeletePendingAccount follow.
pub ended_session-refused :
    (env later : Env) (c : AuthIdentity) (calls : List (Env × AuthCall)) (db db' : Db)
    → any (λ s. s.id == c.session_id) db.auth_sessions ≡ true
    → Ends env c db db'
    → validate_auth_session later c (run_auth calls db') ≡ err not_found
ended_session-refused env later c calls db db' known ends =
    Ended-refused later c (run_auth calls db')
      (run_auth-Ended c calls db' (Ends-Ended env c db db' known ends))
