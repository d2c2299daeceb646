-- ===== src/Store/Sessions/News.antt =====
-- What PairEvents of server/internal/store/collaboration.go selects, described without a query.
use along.Prelude.{
  ℕ, ◌+◌, ◌≤◌, ◌<◌, ◌≡◌, refl, ◌∙◌, Bool, ◌&&◌, List, [], ◌∷◌, ◌==◌, leb, ltb, true, if◌then◌else◌,
  insert_by, sort_by, select, count, arith, All, All-insert_by, All-mono, All-sort_by, Bool-cases,
  inl, inr,
}
use along.Store.Schema.{EventRow}

-- Each event is followed by events of no smaller cursor alone.
abbrev pub Ascending : List EventRow → Type 0
Ascending [] = Unit
Ascending (e ∷ es) = All (λ f. e.cursor ≤ f.cursor) es × Ascending es

-- `events` are those of the `stored` ones that the pair has above the cursor: none other, each as
-- often as it is stored (whatever test counts them), and in the order of their cursors.
pub record IsNews (pair cursor : ℕ) (stored events : List EventRow) : Type 0 where
  pub sound : All (λ e. (e.pair_id ≡ pair) × (cursor < e.cursor)) events
  pub complete :
      (test : EventRow → Bool)
      → count test events ≡ count (λ e. e.pair_id == pair && ltb cursor e.cursor && test e) stored
  pub ascending : Ascending events

module _ {A : Type 0} (p : A → Bool) where
  count-insert_by :
      (le : A → A → Bool) (x : A) (xs : List A)
      → count p (insert_by le x xs) ≡ count p xs + (if p x then 1 else 0)
  unfolding count insert_by
  count-insert_by le x [] = ground arith
  count-insert_by le x (y ∷ ys) = ground (arith, count-insert_by le x ys)

  count-sort_by : (le : A → A → Bool) (xs : List A) → count p (sort_by le xs) ≡ count p xs
  unfolding count sort_by
  count-sort_by le [] = refl
  count-sort_by le (x ∷ xs) =
      ground (arith, count-insert_by (λ a b. le a b) x (sort_by le xs), count-sort_by le xs)

  count-select : (q : A → Bool) (xs : List A) → count p (select q xs) ≡ count (λ x. q x && p x) xs
  unfolding count select
  count-select q [] = refl
  count-select q (x ∷ xs) = ground (arith, count-select q xs)

  select-All : (xs : List A) → All (λ x. p x ≡ true) (select p xs)
  unfolding select
  select-All [] = tt
  select-All (x ∷ xs) = elim (Bool-cases (p x)) [
    | inl hit ↦ rw hit (hit, select-All xs)
    | inr miss ↦ rw miss (select-All xs)
  ]

by_cursor : EventRow → EventRow → Bool
by_cursor a b = leb a.cursor b.cursor

insert_by-Ascending :
    (e : EventRow) (es : List EventRow) → Ascending es → Ascending (insert_by by_cursor e es)
unfolding insert_by by_cursor
insert_by-Ascending e [] h = (tt, tt)
insert_by-Ascending e (f ∷ fs) h = elim (Bool-cases (leb f.cursor e.cursor)) [
  | inl before ↦
      rw before (All-insert_by _ by_cursor e fs (ground arith) h.0, insert_by-Ascending e fs h.1)
  | inr after ↦ rw after ((ground arith, All-mono _ _ (λ g le. ground arith) fs h.0), h)
]

sort_by-Ascending : (es : List EventRow) → Ascending (sort_by by_cursor es)
unfolding sort_by
sort_by-Ascending [] = tt
sort_by-Ascending (e ∷ es) = insert_by-Ascending e (sort_by by_cursor es) (sort_by-Ascending es)

-- The rows of `pair_events` that the SELECT of PairEvents takes, in its order.
pub select-IsNews :
    (pair cursor : ℕ) (stored : List EventRow)
    → IsNews pair cursor stored (
        sort_by
          (λ a b. leb a.cursor b.cursor)
          (select (λ e. e.pair_id == pair && ltb cursor e.cursor) stored))
unfolding by_cursor
select-IsNews pair cursor stored =
    let of_pair : EventRow → Bool = λ e. e.pair_id == pair && ltb cursor e.cursor in
    record {
      sound = All-sort_by _ _ _ (
          All-mono _ _ (λ e hit. (ground arith, ground arith)) (select of_pair stored)
            (select-All of_pair stored));
      complete =
          λ test. count-sort_by test _ (select of_pair stored) ∙ count-select test of_pair stored;
      ascending = sort_by-Ascending (select of_pair stored);
    }
