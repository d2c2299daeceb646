-- ===== src/Store/Auth/Ended.antt =====
-- A sign-in that was revoked: it is never valid again, whatever calls follow.
use along.Prelude.{
  ◌≡◌, ◌∙◌, refl, sym, subst, Bool, true, false, ◌&&◌, Option, none, some, List, [], ◌∷◌, ◌++◌,
  ◌==◌, any, update, arith, is_none, All, All-find, All-update, All-append, any-append, any-update,
  find-holds,
}
use along.Domain.Models.{AuthIdentity}
use along.Store.Result.{err, not_found}
use along.Store.Schema.{Db, Env, AuthSessionRow}
use along.Store.Tx.{◌>>=◌}
use along.Store.Auth.Identity.{validate_auth_session, is_claimed_session, claimed_row}

-- The columns that a token claims.
abbrev pub names : AuthIdentity → AuthSessionRow → Bool
names c s =
    s.id == c.session_id && s.account_id == c.account_id && s.device_install_id == c.installation_id

abbrev pub has_id : AuthIdentity → AuthSessionRow → Bool
has_id c s = s.id == c.session_id

abbrev pub Dead : AuthIdentity → AuthSessionRow → Type 0
Dead c s = names c s ≡ true → is_none s.revoked_at ≡ false

-- The claimed session is stored, and revoked.
pub record IsEnded (c : AuthIdentity) (rows : List AuthSessionRow) : Type 0 where
  pub known : any (has_id c) rows ≡ true
  pub dead : All (Dead c) rows

abbrev pub Ended : AuthIdentity → Db → Type 0
Ended c db = IsEnded c db.auth_sessions

no_claimed_row :
    (env : Env) (c : AuthIdentity) (db : Db) (o : Option AuthSessionRow)
    → claimed_row env c db ≡ o
    → Ended c db
    → o ≡ none
unfolding claimed_row is_claimed_session
no_claimed_row env c db none e h = refl
no_claimed_row env c db (some s) e h =
    ground (arith, find-holds _ db.auth_sessions s e, All-find (Dead c) _ db.auth_sessions h.dead e)

pub Ended-refused :
    (env : Env) (c : AuthIdentity) (db : Db)
    → Ended c db
    → validate_auth_session env c db ≡ err not_found
unfolding validate_auth_session ◌>>=◌
Ended-refused env c db h = rw (no_claimed_row env c db (claimed_row env c db) refl h, ◌>>=◌) refl

module _ (c : AuthIdentity) where
  -- An UPDATE that keeps the keys and never takes a revocation back.
  pub update-IsEnded :
      (q : AuthSessionRow → Bool) (f : AuthSessionRow → AuthSessionRow)
      → ((s : AuthSessionRow) → (has_id c (f s) ≡ has_id c s) × (names c (f s) ≡ names c s))
      → ((s : AuthSessionRow) → is_none s.revoked_at ≡ false → is_none (f s).revoked_at ≡ false)
      → (rows : List AuthSessionRow) → IsEnded c rows
      → IsEnded c (update q f rows)
  update-IsEnded q f keys stays rows h = record {
    known = any-update (has_id c) q f (λ s. (keys s).0) rows ∙ h.known;
    dead =
        All-update (Dead c) q f (λ s dead hit named. stays s (dead (sym (keys s).1 ∙ named))) rows
          h.dead;
  }

  absurd_known :
      (row : AuthSessionRow) (rows : List AuthSessionRow)
      → any (λ s. s.id == row.id) rows ≡ false
      → names c row ≡ true
      → any (has_id c) rows ≡ true
      → is_none row.revoked_at ≡ false
  absurd_known row rows fresh named known =
      let e : row.id ≡ c.session_id = ground arith in
      cc (subst (λ i. any (λ s. s.id == i) rows ≡ false) e fresh, known)

  pub append-IsEnded :
      (row : AuthSessionRow) (rows : List AuthSessionRow)
      → any (λ s. s.id == row.id) rows ≡ false
      → IsEnded c rows
      → IsEnded c (rows ++ row ∷ [])
  append-IsEnded row rows fresh h = record {
    known = ground (arith, any-append (has_id c) rows (row ∷ []), h.known);
    dead =
        All-append (Dead c) rows (row ∷ []) h.dead
          (λ named. absurd_known row rows fresh named h.known, tt);
  }
