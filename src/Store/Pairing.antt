-- ===== src/Store/Pairing.antt =====
-- CreatePairInvite, AcceptPairInvite and Pair of server/internal/store/collaboration.go.
pub mod Laws
use along.Prelude.{
  ℕ, Bool, true, false, not, ◌&&◌, ◌||◌, none, some, [], ◌∷◌, ◌++◌, ◌==◌, ltb, any, find, update,
  is_none, if◌then◌else◌,
}
use along.Domain.Models.{PairSummary}
use along.Store.Result.{ok, err, not_found, conflict, already_paired, unique_violation}
use along.Store.Schema.{Env, AccountRow, is_active, PairRow, PairMemberRow, InviteRow, pair_payload}
use along.Store.Tx.{Tx, ◌>>=◌, ◌>>◌, pure, gets, guard, modify, or_fail}
use along.Store.Events.{append_pair_event}

abbrev pub is_member : ℕ → PairMemberRow → Bool
is_member account m = m.account_id == account

-- created_by = $1 AND accepted_at IS NULL AND revoked_at IS NULL
unfoldable pub is_pending_of : ℕ → InviteRow → Bool
is_pending_of account i = i.created_by == account && is_none i.accepted_at && is_none i.revoked_at

unfoldable pub revoke_invite : Env → InviteRow → InviteRow
revoke_invite env i = record i { revoked_at = some env.clock }

-- The primary key, and token_hash UNIQUE.
unfoldable pub insert_invite : InviteRow → Tx (Unit {0})
insert_invite row db =
    if any (λ i. i.id == row.id || i.token_hash == row.token_hash) db.pair_invites
    then err unique_violation
    else ok (tt, record db { pair_invites = db.pair_invites ++ row ∷ [] })

unfoldable pub create_pair_invite : Env → ℕ → ℕ → ℕ → ℕ → Tx (Unit {0})
create_pair_invite env account invite_id token_hash expires_at = do
  paired ← gets λ db. any (is_member account) db.pair_members
  guard (not paired) already_paired
  modify λ db. record db {
    pair_invites = update (is_pending_of account) (revoke_invite env) db.pair_invites;
  }
  insert_invite (record {
    id = invite_id;
    created_by = account;
    token_hash = token_hash;
    expires_at = expires_at;
    accepted_by = none;
    accepted_at = none;
    revoked_at = none;
  })

-- The WHERE of the first SELECT of AcceptPairInvite.
unfoldable pub is_open_invite : Env → ℕ → InviteRow → Bool
is_open_invite env token_hash i =
    i.token_hash == token_hash
    && ltb env.clock i.expires_at
    && is_none i.accepted_at
    && is_none i.revoked_at

-- The primary key.
unfoldable pub insert_pair : PairRow → Tx (Unit {0})
insert_pair row db =
    if any (λ p. p.id == row.id) db.pairs
    then err unique_violation
    else ok (tt, record db { pairs = db.pairs ++ row ∷ [] })

-- The index one_active_pair_per_account_idx on account_id.
unfoldable pub insert_member : ℕ → ℕ → Tx (Unit {0})
insert_member pair account db =
    if any (is_member account) db.pair_members
    then err unique_violation
    else ok (
      tt,
      record db {
        pair_members = db.pair_members ++ record { pair_id = pair; account_id = account } ∷ [];
      },
    )

unfoldable pub accept_row : Env → ℕ → InviteRow → InviteRow
accept_row env account i = record i { accepted_by = some account; accepted_at = some env.clock }

-- The end of AcceptPairInvite, after the two members are inserted.
unfoldable pub settle_invite : Env → ℕ → InviteRow → AccountRow → Tx PairSummary
settle_invite env account invite partner = do
  modify λ db. record db {
    pair_invites = update (λ i. i.id == invite.id) (accept_row env account) db.pair_invites;
  }
  cursor ←
      append_pair_event env (env.uuid 0) "pair.created" (some (env.uuid 0)) (some account)
        (pair_payload (env.uuid 0) (invite.created_by ∷ account ∷ []))
  pure (record {
    id = env.uuid 0;
    partner_id = invite.created_by;
    partner_name = partner.display_name;
    created_at = env.clock;
  })

-- The inserts of AcceptPairInvite and what follows them. The first UUID of the call is the pair's.
unfoldable pub create_pair : Env → ℕ → InviteRow → AccountRow → Tx PairSummary
create_pair env account invite partner = do
  insert_pair (record { id = env.uuid 0; created_at = env.clock; dissolved_at = none })
  insert_member (env.uuid 0) invite.created_by
  insert_member (env.uuid 0) account
  settle_invite env account invite partner

unfoldable pub accept_pair_invite : Env → ℕ → ℕ → Tx PairSummary
accept_pair_invite env account token_hash = do
  open_invite ← gets λ db. find (is_open_invite env token_hash) db.pair_invites
  invite ← or_fail not_found open_invite
  guard (not (invite.created_by == account)) conflict
  paired ←
      gets λ db. any (λ m. is_member invite.created_by m || is_member account m) db.pair_members
  guard (not paired) already_paired
  row ← gets λ db. find (λ a. a.id == invite.created_by && is_active a.status) db.accounts
  partner ← or_fail not_found row
  create_pair env account invite partner

unfoldable pub pair_query : ℕ → Tx PairSummary
pair_query account = do
  mine_row ← gets λ db. find (is_member account) db.pair_members
  mine ← or_fail not_found mine_row
  pair_row ← gets λ db. find (λ p. p.id == mine.pair_id && is_none p.dissolved_at) db.pairs
  pair ← or_fail not_found pair_row
  other_row ← gets λ db.
      find (λ m. m.pair_id == mine.pair_id && not (m.account_id == mine.account_id)) db.pair_members
  other ← or_fail not_found other_row
  partner_row ← gets λ db. find (λ a. a.id == other.account_id) db.accounts
  partner ← or_fail not_found partner_row
  pure (record {
    id = pair.id;
    partner_id = other.account_id;
    partner_name = partner.display_name;
    created_at = pair.created_at;
  })
