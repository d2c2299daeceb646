-- ===== src/Tests/Pairing.antt =====
-- Ann (1) invites Bob (2), who accepts.
use along.Prelude.{ℕ, ◌+◌, refl, [], ◌∷◌, find, update}
use along.Domain.Models.{PairSummary}
use along.Store.Result.{Result, ok, err}
use along.Store.Schema.{Db, Env, empty_db, active}
use along.Store.Tx.{◌>>=◌}
use along.Store.Events.{append_pair_event, with_event}
use along.Store.Pairing.{
  create_pair_invite, accept_pair_invite, insert_invite, is_open_invite, create_pair, insert_pair,
  insert_member, settle_invite, accept_row,
}
use along.Store.Pairing.Laws.{Pairs, accept_pair_invite-Pairs}

abbrev at : ℕ → Env
at t = record { now = t; clock = t; uuid = λ n. t + n }

abbrev ann_db : Db
ann_db = record empty_db {
  accounts =
      record {
        id = 1;
        webauthn_user_handle = 1;
        display_name = "Ann";
        recovery_handle = "A";
        status = active;
        created_at = 0;
      }
      ∷ [];
}

abbrev no_pair : PairSummary
no_pair = record { id = 0; partner_id = 0; partner_name = ""; created_at = 0 }

abbrev db_of : {A : Type 0} → Result (A × Db) → Db
db_of (ok (a, db)) = db
db_of (err e) = empty_db

abbrev pair_of : Result (PairSummary × Db) → PairSummary
pair_of (ok (p, db)) = p
pair_of (err e) = no_pair

invited : Db
unfolding create_pair_invite insert_invite ◌>>=◌ update
invited = db_of (create_pair_invite (at 100) 1 50 777 9000 ann_db)

accepted : Result (PairSummary × Db)
unfolding invited accept_pair_invite is_open_invite create_pair insert_pair insert_member
    settle_invite accept_row append_pair_event with_event find
accepted = accept_pair_invite (at 200) 2 777 invited

accept_pair_invite-Pairs_example : Pairs 2 invited (pair_of accepted) (db_of accepted)
unfolding accepted
accept_pair_invite-Pairs_example =
    accept_pair_invite-Pairs (at 200) 2 777 invited (db_of accepted) (pair_of accepted) refl
