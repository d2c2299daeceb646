-- ===== src/Hub/Laws.antt =====
-- Coalesced hints: a channel holds eight at most, and no subscriber misses that there is something.
use along.Prelude.{
  ℕ, ◌≤◌, ◌<◌, Bool, List, [], ◌∷◌, ◌==◌, length, update, delete, select, Bool-cases, inl, inr,
  arith, All, All-append, All-update, length-append,
}
use along.Store.Schema.{Hint}
use along.Hub.{
  Channel, capacity, subscribe, unsubscribe, offer, publish, receive, rest, HubStep, joins, leaves,
  publishes, receives, run_hub,
}

-- The channel has room for what waits in it.
abbrev pub Bounded : Channel → Type 0
Bounded c = length c.waiting ≤ capacity

offer-Bounded : (hint : Hint) (c : Channel) → Bounded c → Bounded (offer hint c)
unfolding offer
offer-Bounded hint c h = ground (arith, length-append c.waiting (hint ∷ []))

offer-waits : (hint : Hint) (c : Channel) → 0 < length (offer hint c).waiting
unfolding offer
offer-waits hint c = ground (arith, length-append c.waiting (hint ∷ []))

All-delete :
    (q : Channel → Bool) (hub : List Channel) → All Bounded hub → All Bounded (delete q hub)
unfolding delete
All-delete q [] h = tt
All-delete q (c ∷ hub) (p, h) = elim (Bool-cases (q c)) [
  | inl hit ↦ rw hit (All-delete q hub h)
  | inr miss ↦ rw miss (p, All-delete q hub h)
]

run_hub-Bounded :
    (steps : List HubStep) (hub : List Channel) → All Bounded hub → All Bounded (run_hub steps hub)
unfolding run_hub subscribe unsubscribe publish receive
run_hub-Bounded [] hub h = h
run_hub-Bounded (joins id pair ∷ steps) hub h =
    run_hub-Bounded steps (subscribe id pair hub) (All-append Bounded hub _ h (omega arith, tt))
run_hub-Bounded (leaves id pair ∷ steps) hub h =
    run_hub-Bounded steps (unsubscribe id pair hub) (All-delete _ hub h)
run_hub-Bounded (publishes hint ∷ steps) hub h =
    run_hub-Bounded steps (publish hint hub)
      (All-update Bounded _ (offer hint) (λ c p hit. offer-Bounded hint c p) hub h)
run_hub-Bounded (receives id ∷ steps) hub h =
    run_hub-Bounded steps (receive id hub)
      (All-update Bounded _ _ (λ c p hit. received c.waiting p) hub h)
  where
    received : (hints : List Hint) → length hints ≤ capacity → length (rest hints) ≤ capacity
    received [] p = p
    received (x ∷ xs) p = omega arith

abbrev pub is_of : ℕ → Channel → Bool
is_of pair c = c.pair_id == pair

-- A hint waits, and no more than the capacity.
abbrev pub Awake : Channel → Type 0
Awake c = (0 < length c.waiting) × (length c.waiting ≤ capacity)

published-Awake :
    (hint : Hint) (hub : List Channel)
    → All Bounded hub
    → All Awake (select (is_of hint.pair_id) (publish hint hub))
unfolding publish update select
published-Awake hint [] h = tt
published-Awake hint (c ∷ hub) (p, h) = elim (Bool-cases (is_of hint.pair_id c)) [
  | inl hit ↦
      rw (hit, offer)
        (rw hit ((offer-waits hint c, offer-Bounded hint c p), published-Awake hint hub h))
  | inr miss ↦ rw miss (rw miss (published-Awake hint hub h))
]

-- However sockets have come and gone, taken hints or been too slow for them: when a hint is
-- published, each channel of its pair has one waiting, and no channel of it has more than eight.
pub publish-Awake :
    (steps : List HubStep) (hint : Hint)
    → All Awake (select (is_of hint.pair_id) (publish hint (run_hub steps [])))
publish-Awake steps hint = published-Awake hint (run_hub steps []) (run_hub-Bounded steps [] tt)
