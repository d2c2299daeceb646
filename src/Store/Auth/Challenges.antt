-- ===== src/Store/Auth/Challenges.antt =====
-- CreateChallenge and ConsumeChallenge of server/internal/store/auth.go.
pub mod Laws
use along.Prelude.{
  ℕ, String, Bool, not, ◌&&◌, ◌||◌, Option, none, some, [], ◌∷◌, ◌++◌, ◌==◌, ltb, any, find, update,
  is_none, str_eq, if◌then◌else◌,
}
use along.Store.Result.{ok, err, not_found, unique_violation, check_violation}
use along.Store.Schema.{Db, Env, ChallengeRow}
use along.Store.Tx.{Tx, ◌>>=◌, ◌>>◌, pure, gets, modify, or_fail}

-- Challenge
pub record Challenge : Type 0 where
  pub id : ℕ
  pub account_id : Option ℕ
  pub purpose : String
  pub session_data : String

-- The CHECK on purpose.
unfoldable pub is_purpose : String → Bool
is_purpose p = str_eq p "register_account" || (str_eq p "login" || str_eq p "add_passkey")

unfoldable pub create_challenge : ℕ → Option ℕ → String → String → ℕ → Tx (Unit {0})
unfolding is_purpose
create_challenge id account purpose session_data expires_at db =
    if not (is_purpose purpose)
    then err check_violation
    else if any (λ c. c.id == id) db.auth_challenges
    then err unique_violation
    else ok (
      tt,
      record db {
        auth_challenges =
            db.auth_challenges
            ++ record {
              id = id;
              account_id = account;
              purpose = purpose;
              session_data = session_data;
              expires_at = expires_at;
              consumed_at = none;
            }
              ∷ [];
      },
    )

-- The WHERE of the UPDATE.
unfoldable pub is_usable : Env → ℕ → String → ChallengeRow → Bool
is_usable env id purpose c =
    c.id == id && str_eq c.purpose purpose && is_none c.consumed_at && ltb env.clock c.expires_at

unfoldable pub consume_row : Env → ChallengeRow → ChallengeRow
consume_row env c = record c { consumed_at = some env.clock }

unfoldable pub challenge_of : ChallengeRow → Challenge
challenge_of c = record {
  id = c.id;
  account_id = c.account_id;
  purpose = c.purpose;
  session_data = c.session_data;
}

-- UPDATE … RETURNING, of which the first row is scanned.
unfoldable pub consume_challenge : Env → ℕ → String → Tx Challenge
unfolding consume_row challenge_of
consume_challenge env id purpose = do
  found ← gets λ db. find (is_usable env id purpose) db.auth_challenges
  modify λ db. record db {
    auth_challenges = update (is_usable env id purpose) (consume_row env) db.auth_challenges;
  }
  c ← or_fail not_found found
  pure (challenge_of c)
