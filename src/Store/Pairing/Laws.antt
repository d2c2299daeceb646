-- ===== src/Store/Pairing/Laws.antt =====
-- Who is in a pair before and after an invite is accepted.
use along.Prelude.{
  ◌≢◌, ℕ, ◌≡◌, refl, Bool, true, false, not, ◌&&◌, ◌||◌, none, List, [], ◌∷◌, ◌++◌, ◌==◌, any, find,
  any-append, arith, subst,
}
use along.Domain.Models.{PairSummary}
use along.Store.Result.{ok, err, already_paired, not_found, conflict, unique_violation}
use along.Store.Schema.{Db, Env, PairMemberRow, InviteRow, AccountRow, is_active}
use along.Store.Tx.{Tx, ◌>>=◌, ◌>>◌, Post, Post-guard, Post-found, Post-insert}
use along.Store.Events.{append_pair_event, with_event}
use along.Store.Pairing.{
  create_pair, settle_invite, is_member, is_open_invite, insert_member, insert_pair,
  accept_pair_invite, create_pair_invite,
}

-- The members that accepting an invite has added.
pub record Pairs (account : ℕ) (db : Db) (p : PairSummary) (db' : Db) : Type 0 where
  pub apart : (p.partner_id == account) ≡ false
  pub unpaired : any (is_member account) db.pair_members ≡ false
  pub partner_unpaired : any (is_member p.partner_id) db.pair_members ≡ false
  pub members :
      db'.pair_members
      ≡ (db.pair_members ++ record { pair_id = p.id; account_id = p.partner_id } ∷ [])
        ++ record { pair_id = p.id; account_id = account } ∷ []

false_of_not : {b : Bool} → not b ≡ true → b ≡ false
false_of_not {b = true} h = cc
false_of_not {b = false} h = refl

unpaired_before :
    (account : ℕ) (members : List PairMemberRow) (m : PairMemberRow)
    → any (is_member account) (members ++ m ∷ []) ≡ false
    → any (is_member account) members ≡ false
unpaired_before account members m h =
    ground (arith, h, any-append (is_member account) members (m ∷ []))

create_pair-Post :
    (env : Env) (account : ℕ) (invite : InviteRow) (partner : AccountRow) (db : Db)
    → (invite.created_by == account) ≡ false
    → Post (Pairs account db) (create_pair env account invite partner db)
unfolding create_pair insert_pair insert_member settle_invite ◌>>=◌ append_pair_event with_event
create_pair-Post env account invite partner db apart =
    Post-insert Q unique_violation db (any (λ p. p.id == env.uuid 0) db.pairs) db1 inserts λ _.
      Post-insert Q unique_violation db1 (any (is_member invite.created_by) db.pair_members) db2
        (insert_member (env.uuid 0) account >> end)
        λ no_creator.
          Post-insert Q unique_violation db2
            (any (is_member account) (db.pair_members ++ creator ∷ [])) db3 end
            λ no_account. record {
              apart = apart;
              unpaired = unpaired_before account db.pair_members creator no_account;
              partner_unpaired = no_creator;
              members = refl;
            }
  where
    Q : PairSummary → Db → Type 0
    Q = Pairs account db

    creator : PairMemberRow
    creator = record { pair_id = env.uuid 0; account_id = invite.created_by }

    end : Tx PairSummary
    end = settle_invite env account invite partner

    inserts : Tx PairSummary
    inserts =
        insert_member (env.uuid 0) invite.created_by >> (insert_member (env.uuid 0) account >> end)

    db1 : Db
    db1 = record db {
      pairs =
          db.pairs ++ record { id = env.uuid 0; created_at = env.clock; dissolved_at = none } ∷ [];
    }

    db2 : Db
    db2 = record db1 { pair_members = db.pair_members ++ creator ∷ [] }

    db3 : Db
    db3 = record db1 {
      pair_members =
          (db.pair_members ++ creator ∷ [])
          ++ record { pair_id = env.uuid 0; account_id = account } ∷ [];
    }

accept_pair_invite-Post :
    (env : Env) (account token_hash : ℕ) (db : Db)
    → Post (Pairs account db) (accept_pair_invite env account token_hash db)
unfolding accept_pair_invite ◌>>=◌
accept_pair_invite-Post env account token_hash db =
    Post-found Q not_found db (find (is_open_invite env token_hash) db.pair_invites) _ λ invite _.
      Post-guard Q conflict db (not (invite.created_by == account)) _ λ other.
        Post-guard Q already_paired db
          (not (any (λ m. is_member invite.created_by m || is_member account m) db.pair_members)) _
          λ _.
            Post-found Q not_found db
              (find (λ a. a.id == invite.created_by && is_active a.status) db.accounts)
              (create_pair env account invite)
              λ partner _. create_pair-Post env account invite partner db (false_of_not other)
  where
    Q : PairSummary → Db → Type 0
    Q = Pairs account db

-- Accepting an invite joins two accounts that were in no pair, and are not the same.
pub accept_pair_invite-Pairs :
    (env : Env) (account token_hash : ℕ) (db db' : Db) (p : PairSummary)
    → accept_pair_invite env account token_hash db ≡ ok (p, db')
    → Pairs account db p db'
accept_pair_invite-Pairs env account token_hash db db' p e =
    subst (Post (Pairs account db)) e (accept_pair_invite-Post env account token_hash db)

create_pair_invite-of-member :
    (env : Env) (account id token_hash expires_at : ℕ) (db : Db)
    → any (is_member account) db.pair_members ≡ true
    → create_pair_invite env account id token_hash expires_at db ≡ err already_paired
unfolding create_pair_invite ◌>>=◌
create_pair_invite-of-member env account id token_hash expires_at db h = rw h refl

any-snoc2 :
    (account : ℕ) (members : List PairMemberRow) (m n : PairMemberRow)
    → (is_member account m || is_member account n) ≡ true
    → any (is_member account) ((members ++ m ∷ []) ++ n ∷ []) ≡ true
any-snoc2 account members m n h = ground (
  arith,
  h,
  any-append (is_member account) (members ++ m ∷ []) (n ∷ []),
  any-append (is_member account) members (m ∷ []),
)

Pairs-both :
    (account : ℕ) (db db' : Db) (p : PairSummary)
    → Pairs account db p db'
    → (any (is_member account) db'.pair_members ≡ true)
      × (any (is_member p.partner_id) db'.pair_members ≡ true)
Pairs-both account db db' p joined = (
  rw joined.members (any-snoc2 account db.pair_members _ _ (ground arith)),
  rw joined.members (any-snoc2 p.partner_id db.pair_members _ _ (ground arith)),
)

-- After an invite is accepted, neither of the two accounts can create another invite.
pub accept_pair_invite-Settles :
    (env later : Env) (account token_hash id token expires_at : ℕ) (db db' : Db) (p : PairSummary)
    → accept_pair_invite env account token_hash db ≡ ok (p, db')
    → (create_pair_invite later account id token expires_at db' ≡ err already_paired)
      × (create_pair_invite later p.partner_id id token expires_at db' ≡ err already_paired)
accept_pair_invite-Settles env later account token_hash id token expires_at db db' p e = (
  create_pair_invite-of-member later account id token expires_at db' both.0,
  create_pair_invite-of-member later p.partner_id id token expires_at db' both.1,
)
  where
    both :
        (any (is_member account) db'.pair_members ≡ true)
        × (any (is_member p.partner_id) db'.pair_members ≡ true)
    both = Pairs-both account db db' p (accept_pair_invite-Pairs env account token_hash db db' p e)

member-Bars :
    (env : Env) (account token : ℕ) (db db' : Db) (q : PairSummary)
    → any (is_member account) db.pair_members ≡ true
    → accept_pair_invite env account token db ≢ ok (q, db')
member-Bars env account token db db' q member again =
    cc ((accept_pair_invite-Pairs env account token db db' q again).unpaired, member)

-- After an invite is accepted, neither of the two accounts can accept an invite.
pub accept_pair_invite-Bars :
    (env later : Env) (account token_hash token : ℕ) (db db' db'' : Db) (p q : PairSummary)
    → accept_pair_invite env account token_hash db ≡ ok (p, db')
    → (accept_pair_invite later account token db' ≢ ok (q, db''))
      × (accept_pair_invite later p.partner_id token db' ≢ ok (q, db''))
accept_pair_invite-Bars env later account token_hash token db db' db'' p q e = (
  member-Bars later account token db' db'' q both.0,
  member-Bars later p.partner_id token db' db'' q both.1,
)
  where
    both :
        (any (is_member account) db'.pair_members ≡ true)
        × (any (is_member p.partner_id) db'.pair_members ≡ true)
    both = Pairs-both account db db' p (accept_pair_invite-Pairs env account token_hash db db' p e)
