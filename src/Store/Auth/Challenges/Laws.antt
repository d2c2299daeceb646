-- ===== src/Store/Auth/Challenges/Laws.antt =====
-- A challenge is consumed as it was created, and once.
use along.Prelude.{
  ℕ, ◌≡◌, ◌≤◌, ◌<◌, ◌∙◌, refl, String, false, Option, none, some, List, [], ◌∷◌, ◌++◌, ◌==◌, any,
  find, update, str_eq_refl, arith, All-mono, All-of-any, All-update_cases, find-none,
  find-append_none, subst,
}
use along.Store.Result.{ok, err, not_found}
use along.Store.Schema.{Db, Env, ChallengeRow}
use along.Store.Tx.{◌>>=◌, Post, Post-found}
use along.Store.Auth.Challenges.{
  Challenge, create_challenge, consume_challenge, is_usable, consume_row, challenge_of,
}

pub consume_again :
    (env later : Env) (id : ℕ) (purpose : String) (rows : List ChallengeRow)
    → env.clock ≤ later.clock
    → find (is_usable later id purpose) (update (is_usable env id purpose) (consume_row env) rows)
      ≡ none
unfolding is_usable consume_row
consume_again env later id purpose rows le = find-none _ _ (
    All-update_cases (λ c. is_usable later id purpose c ≡ false) (is_usable env id purpose)
      (consume_row env) (λ c hit. ground arith) (λ c miss. ground arith) rows)

-- A challenge that was consumed cannot be consumed again.
pub consume_challenge-once :
    (env later : Env) (id : ℕ) (purpose : String) (challenge : Challenge) (db db' : Db)
    → consume_challenge env id purpose db ≡ ok (challenge, db')
    → env.clock ≤ later.clock
    → consume_challenge later id purpose db' ≡ err not_found
unfolding consume_challenge ◌>>=◌
consume_challenge-once env later id purpose challenge db db' e le =
    subst (Post (λ _ d. consume_challenge later id purpose d ≡ err not_found)) e (
      Post-found (λ _ d. consume_challenge later id purpose d ≡ err not_found) not_found consumed
        (find (is_usable env id purpose) db.auth_challenges) _
        λ c found. rw (consume_again env later id purpose db.auth_challenges le, ◌>>=◌) refl)
  where
    consumed : Db
    consumed = record db {
      auth_challenges = update (is_usable env id purpose) (consume_row env) db.auth_challenges;
    }

abbrev created : ℕ → Option ℕ → String → String → ℕ → ChallengeRow
created id account purpose session_data expires_at = record {
  id = id;
  account_id = account;
  purpose = purpose;
  session_data = session_data;
  expires_at = expires_at;
  consumed_at = none;
}

create_challenge-inserts :
    (id : ℕ) (account : Option ℕ) (purpose session_data : String) (expires_at : ℕ) (db db' : Db)
    → create_challenge id account purpose session_data expires_at db ≡ ok (tt, db')
    → (any (λ c. c.id == id) db.auth_challenges ≡ false)
      × (db'.auth_challenges
          ≡ db.auth_challenges ++ created id account purpose session_data expires_at ∷ [])
unfolding create_challenge
create_challenge-inserts id account purpose session_data expires_at db db' e =
    (ground arith, ground arith)

find-created :
    (env : Env) (id : ℕ) (account : Option ℕ) (purpose session_data : String) (expires_at : ℕ)
    (rows : List ChallengeRow)
    → any (λ c. c.id == id) rows ≡ false
    → env.clock < expires_at
    → find
        (is_usable env id purpose)
        (rows ++ created id account purpose session_data expires_at ∷ [])
      ≡ some (created id account purpose session_data expires_at)
unfolding is_usable find
find-created env id account purpose session_data expires_at rows fresh lt =
    find-append_none _ rows _ (
      find-none _ rows (
        All-mono _ _ (λ c other. ground (arith, other)) rows
          (All-of-any (λ c. c.id == id) rows fresh)))
    ∙ ground (arith, str_eq_refl purpose)

-- A challenge that was created is consumed, before it expires, with what was stored.
pub consume-create :
    (env : Env) (id : ℕ) (account : Option ℕ) (purpose session_data : String) (expires_at : ℕ)
    (db db' : Db)
    → create_challenge id account purpose session_data expires_at db ≡ ok (tt, db')
    → env.clock < expires_at
    → (db'' : Db) × (consume_challenge env id purpose db'
        ≡ ok (
          record { id = id; account_id = account; purpose = purpose; session_data = session_data },
          db'',
        ))
unfolding consume_challenge challenge_of ◌>>=◌
consume-create env id account purpose session_data expires_at db db' e lt =
    let (fresh, rows) =
      create_challenge-inserts id account purpose session_data expires_at db db' e in
    let found : find (is_usable env id purpose) db'.auth_challenges
        ≡ some (created id account purpose session_data expires_at) =
      rw rows
        (find-created env id account purpose session_data expires_at db.auth_challenges fresh lt) in
    (
      record db' {
        auth_challenges = update (is_usable env id purpose) (consume_row env) db'.auth_challenges;
      },
      rw (found, ◌>>=◌) refl,
    )
