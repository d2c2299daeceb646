-- ===== src/Store/Auth/Held.antt =====
-- The account and the row of a sign-in, which no call of the authentication store removes while the
-- account is not pending.
use along.Prelude.{
  ℕ, ◌≡◌, ◌∙◌, refl, subst, Bool, true, false, ◌&&◌, ◌||◌, List, [], ◌∷◌, ◌++◌, ◌==◌, any, update,
  str_eq, arith, All-find, All-of-any, any-append, any-update, find-of-any, find-holds,
}
use along.Domain.Models.{AuthIdentity}
use along.Store.Schema.{Db, Env, AccountRow, RefreshRow, AuthSessionRow}
use along.Store.Tx.{Keeps, Triple-post}
use along.Store.Auth.Accounts.{is_pending_account, insert_account}
use along.Store.Auth.Logins.{insert_auth_session, insert_refresh}
use along.Store.Auth.Refresh.{Rotation, rotated, reused, revoke_reused, seen_session}
use along.Store.Auth.Refresh.Outcome.{Outcome, rotate_refresh-Outcome, renewed, family_revoked}
use along.Store.Auth.Closed.{IsClosed, IsActivating}

-- The row of auth_sessions that an identity names.
abbrev pub is_row : AuthIdentity → AuthSessionRow → Bool
is_row c s = s.id == c.session_id && s.account_id == c.account_id

abbrev pub is_account : AuthIdentity → AccountRow → Bool
is_account c a = a.id == c.account_id

-- The session is stored for its account, which is stored and not pending.
pub record IsHeld (c : AuthIdentity) (sessions : List AuthSessionRow) (accounts : List AccountRow)
    : Type 0 where
  pub row : any (is_row c) sessions ≡ true
  pub known : any (is_account c) accounts ≡ true
  pub settled : any (is_pending_account c.account_id) accounts ≡ false

abbrev pub Held : AuthIdentity → Db → Type 0
Held c db = IsHeld c db.auth_sessions db.accounts

module _ (c : AuthIdentity) where
  Held-same :
      (db db' : Db)
      → db'.auth_sessions ≡ db.auth_sessions
      → db'.accounts ≡ db.accounts
      → Held c db
      → Held c db'
  Held-same db db' sessions accounts h = record {
    row = ap_any sessions ∙ h.row;
    known = rw accounts h.known;
    settled = rw accounts h.settled;
  }
    where
      ap_any :
          db'.auth_sessions ≡ db.auth_sessions
          → any (is_row c) db'.auth_sessions ≡ any (is_row c) db.auth_sessions
      ap_any e = rw e refl

  other_id :
      (row : AccountRow) (rows : List AccountRow)
      → any
          (λ a.
            a.id == row.id
            || a.webauthn_user_handle == row.webauthn_user_handle
            || str_eq a.recovery_handle row.recovery_handle)
          rows
        ≡ false
      → any (is_account c) rows ≡ true
      → (row.id == c.account_id) ≡ false
  other_id row rows fresh known =
      let (a, found) = find-of-any (is_account c) rows known in
      ground (
        arith,
        find-holds (is_account c) rows a found,
        All-find _ (is_account c) rows (All-of-any _ rows fresh) found,
      )

  insert_account-Held : (row : AccountRow) → Keeps (Held c) (insert_account row)
  unfolding insert_account
  insert_account-Held row = record {
    run = λ db h a db' e.
        let other = other_id row db.accounts (ground arith) h.known in
        let accounts : db'.accounts ≡ db.accounts ++ row ∷ [] = ground arith in
        record {
          row = subst (λ rows. any (is_row c) rows ≡ true) (ground arith) h.row;
          known =
              rw accounts
                (ground (arith, any-append (is_account c) db.accounts (row ∷ []), h.known));
          settled = rw accounts (
              ground (
                arith,
                any-append (is_pending_account c.account_id) db.accounts (row ∷ []),
                h.settled,
              ));
        };
  }

  insert_auth_session-Held : (row : AuthSessionRow) → Keeps (Held c) (insert_auth_session row)
  unfolding insert_auth_session
  insert_auth_session-Held row = record {
    run = λ db h a db' e.
        let sessions : db'.auth_sessions ≡ db.auth_sessions ++ row ∷ [] = ground arith in
        let accounts : db'.accounts ≡ db.accounts = ground arith in
        record {
          row =
              rw sessions
                (ground (arith, any-append (is_row c) db.auth_sessions (row ∷ []), h.row));
          known = rw accounts h.known;
          settled = rw accounts h.settled;
        };
  }

  insert_refresh-Held : (row : RefreshRow) → Keeps (Held c) (insert_refresh row)
  unfolding insert_refresh
  insert_refresh-Held row = record {
    run = λ db h a db' e. Held-same db db' (ground arith) (ground arith) h;
  }

  update-Held :
      (q : AuthSessionRow → Bool) (f : AuthSessionRow → AuthSessionRow)
      → ((s : AuthSessionRow) → is_row c (f s) ≡ is_row c s)
      → (db : Db) → Held c db
      → IsHeld c (update q f db.auth_sessions) db.accounts
  update-Held q f keys db h = record {
    row = any-update (is_row c) q f keys db.auth_sessions ∙ h.row;
    known = h.known;
    settled = h.settled;
  }

  activating-Held :
      (q : AccountRow → Bool) (f : AccountRow → AccountRow)
      → IsActivating f
      → (rows : List AccountRow) → any (is_pending_account c.account_id) rows ≡ false
      → any (is_pending_account c.account_id) (update q f rows) ≡ false
  unfolding update
  activating-Held q f k [] h = refl
  activating-Held q f k (a ∷ rest) h = ground (arith, k.active a, activating-Held q f k rest)

  renewed-Held :
      (env : Env) (old_id old_hash new_id new_hash expires : ℕ) (db db' : Db) (r : Rotation)
      → Held c db
      → Outcome env old_id old_hash new_id new_hash expires db r db'
      → Held c db'
  unfolding renewed family_revoked seen_session revoke_reused
  renewed-Held env old_id old_hash new_id new_hash expires db db' (rotated i) h (p, _, k) =
      rw k.after (update-Held _ (seen_session env.now) (λ s. refl) db h)
  renewed-Held env old_id old_hash new_id new_hash expires db db' reused h (p, k) =
      rw k.after (update-Held _ (revoke_reused env.now) (λ s. refl) db h)

  pub Held-IsClosed : IsClosed (Held c)
  Held-IsClosed = record {
    quiet = λ m same. record {
      run = λ db h a db' e. Held-same db db' (same db a db' e).1 (same db a db' e).2 h;
    };
    account = insert_account-Held;
    activating = λ q f k. Triple-post _ (λ db h. record {
      row = h.row;
      known = any-update (is_account c) q f (λ a. ground (arith, k.id a)) db.accounts ∙ h.known;
      settled = activating-Held q f k db.accounts h.settled;
    });
    session = insert_auth_session-Held;
    token = λ id session hash expires. insert_refresh-Held _;
    rotation = λ env old_id old_hash new_id new_hash expires. record {
      run = λ db h a db' e.
          renewed-Held env old_id old_hash new_id new_hash expires db db' a h
            (rotate_refresh-Outcome env old_id old_hash new_id new_hash expires db a db' e);
    };
    revoking = λ q f k.
        Triple-post _ (λ db h. update-Held q f (λ s. ground (arith, k.id s, k.account s)) db h);
  }
