-- ===== src/Http/Sync/Laws.antt =====
-- What a client of POST /v1/sync can rely on.
use along.Prelude.{
  ℕ, zero, suc, ◌&&◌, ◌≡◌, refl, sym, ap, ◌∙◌, subst, Bool, true, false, some, List, [], ◌∷◌, ◌==◌,
  leb, ℤ, pos, negsuc, to_nat, at_least, at_most, length, map, take, arith, if◌then◌else◌,
}
use along.Domain.Models.{AuthIdentity}
use along.Store.Schema.{Db, Env}
use along.Store.Sessions.Queries.{pair_events, events_after, events_limit}
use along.Store.Sessions.News.{IsNews, select-IsNews}
use along.Http.Handler.{
  Failure, map_error, Outcome, done, failed, attempt-done, pure, fail, ◌>>=◌, app, err_validation,
  >>=-done, guard-done, pure-done,
}
use along.Http.Sync.{
  SyncCommand, SyncCommandResult, SyncReply, Decoders, apply_sync_command, command_result,
  sync_each, default_limit, checked_limit, sync,
}

Named : ℕ → Outcome SyncCommandResult → Type 0
Named id (done r) = r.id ≡ id
Named id (failed f) = Unit

answered :
    (b : Bool) (f : Failure) (r' : SyncCommandResult) (db : Db) (r : SyncCommandResult) (db' : Db)
    → (if b then fail f else pure r') db ≡ (done r, db')
    → (r' ≡ r) × (db' ≡ db)
answered true f r' db r db' e = cc
answered false f r' db r db' e = pure-done r' db r db' e

command_result-Named :
    (id : ℕ) (o : Outcome SyncCommandResult) (db : Db) (r : SyncCommandResult) (db' : Db)
    → Named id o
    → command_result id o db ≡ (done r, db')
    → r.id ≡ id
unfolding Named command_result
command_result-Named id (done r') db r db' h e =
    ap (λ x. x.id) (sym (pure-done r' db r db' e).0) ∙ h
command_result-Named id (failed f) db r db' h e =
    ap (λ x. x.id) (sym (answered (leb 500 (map_error f).status) f _ db r db' e).0)

apply_sync_command-Named :
    (json : Decoders) (env : Env) (identity : AuthIdentity) (c : SyncCommand) (db : Db)
    (o : Outcome SyncCommandResult) (db' : Db)
    → apply_sync_command json env identity c db ≡ (o, db')
    → Named c.id o
unfolding Named apply_sync_command
apply_sync_command-Named json env identity c db (done r) db' e =
    let (u, d, _, e1) = >>=-done _ _ db r db' e in
    let (resource, d', _, e2) = >>=-done _ _ d r db' e1 in
    sym (ap (λ x. x.id) (pure-done _ d' r db' e2).0)
apply_sync_command-Named json env identity c db (failed f) db' e = tt

sync_each-answers :
    (json : Decoders) (identity : AuthIdentity) (commands : List (Env × SyncCommand)) (db : Db)
    (results : List SyncCommandResult) (db' : Db)
    → sync_each json identity commands db ≡ (done results, db')
    → map (λ r. r.id) results ≡ map (λ c. c.1.id) commands
unfolding sync_each
sync_each-answers json identity [] db results db' e =
    ap (map (λ r. r.id)) (sym (pure-done _ db results db' e).0)
sync_each-answers json identity ((env, c) ∷ rest) db results db' e =
    let (o, d, tried, e1) = >>=-done _ _ db results db' e in
    let (r, d1, told, e2) = >>=-done _ _ d results db' e1 in
    let (rs, d2, others, e3) = >>=-done _ _ d1 results db' e2 in
    let named = apply_sync_command-Named json env identity c db o d (attempt-done _ db o d tried) in
    ap (map (λ r. r.id)) (sym (pure-done _ d2 results db' e3).0)
    ∙ ap (λ i. i ∷ map (λ r. r.id) rs) (command_result-Named c.id o d r d1 named told)
    ∙ ap (λ is. c.id ∷ is) (sync_each-answers json identity rest d1 rs d2 others)

take-short : {A : Type 0} (n : ℕ) (xs : List A) → (length (take n xs) == n) ≡ false → take n xs ≡ xs
take-short zero xs h = ground arith
take-short (suc n) [] h = refl
take-short (suc n) (x ∷ xs) h = ap (λ ys. x ∷ ys) (take-short n xs (ground arith))

pair_events-IsNews :
    (identity : AuthIdentity) (pair cursor limit : ℕ) (db : Db)
    → identity.pair_id ≡ some pair
    → (leb 1 limit && leb limit 500) ≡ true
    → (length (pair_events identity cursor limit db).0 == limit) ≡ false
    → IsNews pair cursor db.pair_events (pair_events identity cursor limit db).0
unfolding pair_events events_limit events_after
pair_events-IsNews identity pair cursor limit db paired sound = rw paired (λ short.
    let kept : events_limit limit ≡ limit = ground arith in
    subst (IsNews pair cursor db.pair_events)
      (sym (
        take-short (events_limit limit) (events_after pair cursor db) (
          subst
            (λ n. (length (take (events_limit limit) (events_after pair cursor db)) == n) ≡ false)
            (sym kept) short)))
      (select-IsNews pair cursor db.pair_events))

in_range :
    (z : ℤ)
    → (at_least 1 z && at_most 500 z) ≡ true
    → (leb 1 (to_nat z) && leb (to_nat z) 500) ≡ true
in_range (pos n) h = h
in_range (negsuc n) h = cc

checked_limit-done :
    (given : ℤ) (db : Db) (limit : ℕ) (db' : Db)
    → checked_limit given db ≡ (done limit, db')
    → (leb 1 limit && leb limit 500) ≡ true
unfolding checked_limit
checked_limit-done given db limit db' e =
    let (u, d, fits, e1) = >>=-done _ _ db limit db' e in
    let (sound, _) = guard-done _ _ db u d fits in
    subst (λ n. (leb 1 n && leb n 500) ≡ true) (pure-done _ d limit db' e1).0
      (in_range (default_limit given) sound)

-- The results and the events of a request that succeeds.
sync-parts :
    (json : Decoders) (env : Env) (identity : AuthIdentity) (cursor given : ℤ)
    (commands : List (Env × SyncCommand)) (db : Db) (reply : SyncReply) (db' : Db)
    → sync json env identity cursor given commands db ≡ (done reply, db')
    → (map (λ r. r.id) reply.command_results ≡ map (λ c. c.1.id) commands)
      × ((pair : ℕ)
          → identity.pair_id ≡ some pair
          → reply.has_more ≡ false
          → IsNews pair (to_nat cursor) db'.pair_events reply.events)
unfolding sync
sync-parts json env identity cursor given commands db reply db' e =
    let (_, d0, _, e0) = >>=-done _ _ db reply db' e in
    let (limit, d1, fits, e1) = >>=-done _ _ d0 reply db' e0 in
    let (results, d2, each, e2) = >>=-done _ _ d1 reply db' e1 in
    let (current, d3, _, e3) = >>=-done _ _ d2 reply db' e2 in
    let (page, d4, paged, e4) = >>=-done _ _ d3 reply db' e3 in
    let (told, at) = pure-done _ d4 reply db' e4 in
    let (same, at') = pure-done _ d3 page d4 paged in
    (
      ap (λ x. map (λ r. r.id) x.command_results) (sym told)
          ∙ sync_each-answers json identity commands d1 results d2 each,
      λ pair paired short.
          subst (λ x. IsNews pair (to_nat cursor) x.pair_events reply.events) (sym (at ∙ at'))
            (subst (IsNews pair (to_nat cursor) d3.pair_events)
              (ap (λ x. x.0) same ∙ ap (λ x. x.events) told)
              (pair_events-IsNews identity pair (to_nat cursor) limit d3 paired
                (checked_limit-done given d0 limit d1 fits)
                (subst (λ x. (length x.0 == limit) ≡ false) (sym same)
                  (ap (λ x. x.has_more) told ∙ short)))),
    )

-- A request that succeeds has one result for each command, in their order and under their ids.
pub sync-answers :
    (json : Decoders) (env : Env) (identity : AuthIdentity) (cursor limit : ℤ)
    (commands : List (Env × SyncCommand)) (db : Db) (reply : SyncReply) (db' : Db)
    → sync json env identity cursor limit commands db ≡ (done reply, db')
    → map (λ r. r.id) reply.command_results ≡ map (λ c. c.1.id) commands
sync-answers json env identity cursor limit commands db reply db' e =
    (sync-parts json env identity cursor limit commands db reply db' e).0

-- Where a request of a member of a pair succeeds and says that there is no more, its events are
-- those that are stored for the pair above the given cursor when it is answered, the events of its
-- own commands included: each of them is of the pair and above the cursor, every such row is among
-- them as often as it is stored, and they ascend by their cursors.
pub sync-IsNews :
    (json : Decoders) (env : Env) (identity : AuthIdentity) (cursor : ℕ) (limit : ℤ)
    (commands : List (Env × SyncCommand)) (db : Db) (reply : SyncReply) (db' : Db) (pair : ℕ)
    → sync json env identity (pos cursor) limit commands db ≡ (done reply, db')
    → identity.pair_id ≡ some pair
    → reply.has_more ≡ false
    → IsNews pair cursor db'.pair_events reply.events
sync-IsNews json env identity cursor limit commands db reply db' pair e =
    (sync-parts json env identity (pos cursor) limit commands db reply db' e).1 pair

-- A negative cursor or limit, a limit above 500 or more than 100 commands: the request is refused,
-- and no command is run.
pub sync_refused :
    (json : Decoders) (env : Env) (identity : AuthIdentity) (cursor limit : ℤ)
    (commands : List (Env × SyncCommand)) (db : Db)
    → (at_least 0 cursor && at_least 0 limit && at_most 500 limit && leb (length commands) 100)
      ≡ false
    → sync json env identity cursor limit commands db ≡ (failed (app err_validation), db)
unfolding sync checked_limit default_limit ◌>>=◌
sync_refused json env identity (negsuc m) limit commands db h = refl
sync_refused json env identity (pos m) (negsuc n) commands db h = ground arith
sync_refused json env identity (pos m) (pos n) commands db h = ground arith
