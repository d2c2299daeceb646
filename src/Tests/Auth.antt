-- ===== src/Tests/Auth.antt =====
-- Ann (1) signs up on a phone (81) with a passkey, rotates her refresh token (91), presents it
-- again, and signs in anew with a recovery code.
use along.Prelude.{
  ℕ, ◌+◌, ◌≡◌, ◌≢◌, refl, true, none, List, [], ◌∷◌, ◌==◌, any, find, update, count, bytes_eq,
  arith, map,
}
use along.Domain.Models.{AuthIdentity, DeviceInfo}
use along.Store.Result.{Result, ok, err, not_found, conflict}
use along.Store.Schema.{Db, Env, RefreshRow, empty_db}
use along.Store.Tx.{◌>>=◌}
use along.Store.Auth.Accounts.{
  create_pending_account, insert_account, account_of, insert_credential, new_credential,
}
use along.Store.Auth.Challenges.{Challenge, create_challenge, consume_challenge, is_usable}
use along.Store.Auth.Challenges.Laws.{consume-create}
use along.Store.Auth.Logins.{
  Grant, activate_account, create_session, upsert_install, is_device, insert_auth_session,
  insert_refresh, new_session, new_refresh, insert_codes, insert_code, identity_of,
}
use along.Store.Auth.Recovery.{
  use_recovery_code, is_unused_code, unused_codes, replace_recovery_codes,
}
use along.Store.Auth.Recovery.Laws.{numbered, replace_recovery_codes-unused, use_recovery_code-once}
use along.Store.Auth.Refresh.{
  Rotation, rotated, reused, rotate_refresh, present_refresh, renew, touch, is_unconsumed,
  revoke_family,
}
use along.Store.Auth.Refresh.Family.{IsChained}
use along.Store.Auth.Refresh.Reuse.{rotate_refresh-twice, rotate_refresh-ends_family}
use along.Store.Auth.Identity.{validate_auth_session}
use along.Store.Auth.Calls.{
  AuthCall, open_account, rotate, end_session, recover, run_auth, StoreCall, auth, delete_pending,
  run_store,
}
use along.Store.Auth.History.{run_auth-Chained}
use along.Store.Auth.Revoked.{by_reuse}
use along.Store.Auth.Lasting.{ended_session-stays_refused}

abbrev pub at : ℕ → Env
at t = record { now = t; clock = t; uuid = λ n. t + n }

abbrev pub phone : DeviceInfo
phone = record { id = 81; platform = "ios"; name = "Phone" }

abbrev grant : ℕ → Grant
grant n = record {
  auth_session_id = 70 + n;
  session_expires_at = 100000;
  refresh_id = 90 + n;
  refresh_hash = 900 + n;
  refresh_expires_at = 100000;
}

abbrev no_identity : AuthIdentity
no_identity = record {
  account_id = 0;
  session_id = 0;
  installation_id = 0;
  pair_id = none;
  display_name = "";
}

abbrev db_of : {A : Type 0} → Result (A × Db) → Db
db_of (ok (a, db)) = db
db_of (err e) = empty_db

abbrev rotated_identity : Result (Rotation × Db) → AuthIdentity
rotated_identity (ok (rotated i, db)) = i
rotated_identity _ = no_identity

unfoldable pub signed_up : Db
unfolding create_pending_account insert_account account_of activate_account insert_credential
    new_credential identity_of insert_codes insert_code create_session upsert_install is_device
    insert_auth_session insert_refresh new_session new_refresh ◌>>=◌ count update find bytes_eq
signed_up = db_of (
    activate_account (at 200) 1 (7 ∷ []) "{}" "Passkey" ("h0" ∷ "h1" ∷ []) phone (grant 1)
      (db_of (create_pending_account (at 100) 1 11 "Ann" "ANN" empty_db)))

signed_up_runs : any (λ s. s.id == 71) signed_up.auth_sessions ≡ true
unfolding signed_up
signed_up_runs = refl

first : Result (Rotation × Db)
unfolding signed_up rotate_refresh present_refresh renew touch is_unconsumed
first = rotate_refresh (at 300) 91 901 92 902 100000 signed_up

second : Result (Rotation × Db)
unfolding first revoke_family
second = rotate_refresh (at 400) 91 901 93 903 100000 (db_of first)

rotation_runs :
    (rotated_identity first ≡ identity_of 1 71 81)
    × (map (λ r. r.family_id) (db_of first).refresh_tokens ≡ 91 ∷ 91 ∷ [])
    × (second ≡ ok (reused, db_of second))
unfolding second
rotation_runs = (refl, refl, refl)

rotate_refresh-twice_example :
    (db'' : Db) × (rotate_refresh (at 400) 91 901 93 903 100000 (db_of first) ≡ ok (reused, db''))
unfolding first
rotate_refresh-twice_example =
    rotate_refresh-twice (at 300) 91 901 92 902 100000 signed_up (db_of first) (at 400) 93 903
      100000 (rotated_identity first) refl

abbrev head_token : List RefreshRow → RefreshRow
head_token [] = record {
  id = 0;
  family_id = 0;
  auth_session_id = 0;
  parent_id = none;
  token_hash = 0;
  expires_at = 0;
  consumed_at = none;
  replacement_id = none;
  revoked_at = none;
}
head_token (r ∷ rs) = r

abbrev tail_tokens : List RefreshRow → List RefreshRow
tail_tokens [] = []
tail_tokens (r ∷ rs) = rs

-- The second token of the family is dead as well.
rotate_refresh-ends_family_example :
    rotate_refresh (at 500) 92 902 94 904 100000 (db_of second) ≢ ok (rotated no_identity, empty_db)
unfolding second
rotate_refresh-ends_family_example =
    rotate_refresh-ends_family (at 400) (at 500) 91 901 93 903 100000 (db_of first) (db_of second)
      empty_db 92 902 94 904 100000 (head_token (db_of first).refresh_tokens)
      (head_token (tail_tokens (db_of second).refresh_tokens)) no_identity refl refl refl refl

history : List (Env × AuthCall)
history =
    (at 500, recover 1 0 phone (grant 5))
    ∷ (at 600, rotate 95 905 96 906 100000)
    ∷ (at 700, end_session 1 75 "logout")
    ∷ []

run_auth-Chained_example : IsChained (run_auth history empty_db).refresh_tokens
unfolding count
run_auth-Chained_example =
    run_auth-Chained history empty_db
      (record { one = λ family. omega arith; rooted = λ family h. refl })

-- Bob begins to sign up as well, and gives up.
abbrev long_history : List (Env × StoreCall)
long_history =
    (at 450, auth (open_account 2 12 "Bob" "BOB"))
    ∷ (at 460, delete_pending 2)
    ∷ (at 500, auth (recover 1 0 phone (grant 5)))
    ∷ (at 600, delete_pending 1)
    ∷ []

ended_session-stays_refused_example :
    validate_auth_session (at 800) (identity_of 1 71 81) (run_store long_history (db_of second))
    ≡ err not_found
unfolding second
ended_session-stays_refused_example =
    ended_session-stays_refused (at 400) (at 800) (identity_of 1 71 81) long_history (db_of first)
      (db_of second) (record { row = refl; known = refl; settled = refl })
      (by_reuse 91 901 93 903 100000 (head_token (db_of first).refresh_tokens) refl refl refl)

challenged : Db
unfolding create_challenge
challenged = db_of (create_challenge 60 none "login" "{}" 1000 empty_db)

abbrev challenge : Challenge
challenge = record { id = 60; account_id = none; purpose = "login"; session_data = "{}" }

consume-create_example :
    (db'' : Db) × (consume_challenge (at 500) 60 "login" challenged ≡ ok (challenge, db''))
unfolding challenged
consume-create_example =
    consume-create (at 500) 60 none "login" "{}" 1000 empty_db challenged refl (omega arith)

consumed : Db
unfolding challenged consume_challenge is_usable find update ◌>>=◌
consumed = db_of (consume_challenge (at 500) 60 "login" challenged)

recovered : Db
unfolding signed_up use_recovery_code is_unused_code
recovered = db_of (use_recovery_code (at 500) 1 0 phone (grant 5) signed_up)

use_recovery_code-once_example :
    use_recovery_code (at 600) 1 0 phone (grant 6) recovered ≡ err conflict
unfolding recovered
use_recovery_code-once_example =
    use_recovery_code-once (at 500) (at 600) 1 0 phone phone (grant 5) (grant 6)
      (identity_of 1 75 81) signed_up recovered refl

replace_recovery_codes-unused_example :
    (db' : Db) × (replace_recovery_codes 1 ("n0" ∷ "n1" ∷ "n2" ∷ []) signed_up ≡ ok (tt, db'))
    × (unused_codes 1 db' ≡ numbered 0 ("n0" ∷ "n1" ∷ "n2" ∷ []))
replace_recovery_codes-unused_example =
    replace_recovery_codes-unused 1 ("n0" ∷ "n1" ∷ "n2" ∷ []) signed_up
