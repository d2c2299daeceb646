-- ===== src/Tests/Access.antt =====
-- Ann logs out with the access token of her sign-up, and presents it again.
use along.Prelude.{
  ℕ, ◌≡◌, refl, false, String, Option, none, some, List, [], ◌∷◌, find, update, count, cut_text,
  trim_text, is_lower,
}
use along.Domain.Models.{AuthIdentity}
use along.Store.Schema.{Db, Env}
use along.Store.Tx.{◌>>=◌}
use along.Store.Auth.Accounts.{pair_of}
use along.Store.Auth.Identity.{
  validate_auth_session, claimed_row, is_claimed_session, credential_ok,
}
use along.Store.Auth.Calls.{AuthCall, rotate, run_auth}
use along.Store.Auth.Revoke.{revoke_session, is_unrevoked_session, end_session_row}
use along.Http.Handler.{Outcome, done, failed, app, err_unauthorized, attempt, ◌>>=◌ as then}
use along.Http.Access.{bearer_token, bearer, authenticate}
use along.Http.Access.Laws.{IsStable, logout-locks_out}
use along.Http.Sessions.{Reply}
use along.Http.SignIn.Accounts.{logout}
use along.Tests.Auth.{at, signed_up}

abbrev claims : AuthIdentity
claims = record {
  account_id = 1;
  session_id = 71;
  installation_id = 81;
  pair_id = none;
  display_name = "";
}

abbrev ann : AuthIdentity
ann = record claims { display_name = "Ann" }

abbrev accepts : ℕ → String → Option AuthIdentity
accepts t raw = some claims

accepts-IsStable : IsStable accepts
accepts-IsStable = record { same = λ t later raw c c' e f. cc }

entered : authenticate (accepts 300) (at 300) "bearer token" signed_up ≡ (done ann, signed_up)
unfolding authenticate bearer_token bearer cut_text trim_text is_lower validate_auth_session
    claimed_row is_claimed_session credential_ok pair_of find signed_up attempt then ◌>>=◌
entered = refl

abbrev no_content : Reply (Unit {0})
no_content = record { status = 204; replayed = false; value = tt }

abbrev db_after : {A : Type 0} → Outcome A × Db → Db
db_after (o, db) = db

logged_out : Db
unfolding logout revoke_session is_unrevoked_session end_session_row update count signed_up then
    ◌>>=◌
logged_out = db_after (logout (at 300) ann signed_up)

leaves : logout (at 300) ann signed_up ≡ (done no_content, logged_out)
unfolding logged_out
leaves = refl

abbrev later_calls : List (Env × AuthCall)
later_calls = (at 320, rotate 91 901 92 902 100000) ∷ []

logout-locks_out_example :
    authenticate (accepts 330) (at 330) "bearer token" (run_auth later_calls logged_out)
    ≡ (failed (app err_unauthorized), run_auth later_calls logged_out)
logout-locks_out_example =
    logout-locks_out accepts accepts-IsStable (at 300) (at 330) "bearer token" ann no_content
      later_calls signed_up logged_out entered leaves
