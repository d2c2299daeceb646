-- ===== src/Tests/Hub.antt =====
-- Two sockets of a pair (10): one takes its hint, the other leaves.
use along.Prelude.{ℕ, ◌≡◌, refl, List, [], ◌∷◌, All, map, select, update, delete}
use along.Store.Schema.{Hint}
use along.Hub.{
  HubStep, joins, leaves, publishes, receives, run_hub, subscribe, unsubscribe, publish, offer,
  receive,
}
use along.Hub.Laws.{Awake, is_of, publish-Awake}

abbrev hint : ℕ → Hint
hint cursor = record { pair_id = 10; cursor = cursor }

abbrev steps : List HubStep
steps = joins 1 10 ∷ joins 2 10 ∷ publishes (hint 5) ∷ receives 1 ∷ leaves 2 10 ∷ joins 3 20 ∷ []

publish-Awake_example : All Awake (select (is_of 10) (publish (hint 6) (run_hub steps [])))
publish-Awake_example = publish-Awake steps (hint 6)

hub_runs :
    map (λ c. map (λ h. h.cursor) c.waiting) (publish (hint 6) (run_hub steps []))
    ≡ (6 ∷ []) ∷ [] ∷ []
unfolding run_hub subscribe unsubscribe publish offer receive update delete
hub_runs = refl
