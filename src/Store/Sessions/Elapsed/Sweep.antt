-- ===== src/Store/Sessions/Elapsed/Sweep.antt =====
-- A loop of UPDATEs by id over selected rows is one pass over the table.
use along.Prelude.{
  ℕ, ◌≡◌, refl, ap, ◌∙◌, Bool, false, List, [], ◌∷◌, map, ◌==◌, ==_refl, any, select, update, arith,
  inl, inr, Bool-cases, update_none, any-update,
}
use along.Store.Schema.{SessionRow}

abbrev pub is_row : ℕ → SessionRow → Bool
is_row id r = r.id == id

-- The primary key: no two rows share an id.
abbrev pub Distinct : List SessionRow → Type 0
Distinct [] = Unit {0}
Distinct (r ∷ rs) = (any (is_row r.id) rs ≡ false) × Distinct rs

pub Distinct-update :
    (p : SessionRow → Bool) (f : SessionRow → SessionRow)
    → ((r : SessionRow) → (f r).id ≡ r.id)
    → (rows : List SessionRow) → Distinct rows
    → Distinct (update p f rows)
unfolding update
Distinct-update p f keep [] d = d
Distinct-update p f keep (r ∷ rs) d =
    let fresh = any-update (is_row r.id) p f (λ x. ap (λ (n : ℕ). n == r.id) (keep x)) rs ∙ d.0 in
    let rest = Distinct-update p f keep rs d.1 in
    elim (Bool-cases (p r)) [
      | inl hit ↦ rw (hit, update) (rw (keep r) fresh, rest)
      | inr miss ↦ rw (miss, update) (fresh, rest)
    ]

module _ {B : Type 0} (key : B → ℕ) (g : B → SessionRow → SessionRow) where
  -- UPDATE … WHERE id = key b, for each item `b` in turn.
  abbrev pub sweep : List B → List SessionRow → List SessionRow
  sweep [] rows = rows
  sweep (b ∷ bs) rows = sweep bs (update (is_row (key b)) (g b) rows)

  sweep-nil : (bs : List B) → sweep bs [] ≡ []
  unfolding update
  sweep-nil [] = refl
  sweep-nil (b ∷ bs) = sweep-nil bs

  -- A row that no item names stays, and the rest is swept.
  sweep-cons :
      (bs : List B) (r : SessionRow) (rows : List SessionRow)
      → any (λ b. r.id == key b) bs ≡ false
      → sweep bs (r ∷ rows) ≡ r ∷ sweep bs rows
  unfolding update
  sweep-cons [] r rows h = refl
  sweep-cons (b ∷ bs) r rows h =
      ground (arith, sweep-cons bs r (update (is_row (key b)) (g b) rows))

  module _ (h : SessionRow → B) (p : SessionRow → Bool) (f : SessionRow → SessionRow)
      (key-h : (r : SessionRow) → key (h r) ≡ r.id) (g-h : (r : SessionRow) → g (h r) r ≡ f r)
      (id-f : (r : SessionRow) → (f r).id ≡ r.id) where
    absent :
        (id : ℕ) (rows : List SessionRow)
        → any (is_row id) rows ≡ false
        → any (λ b. id == key b) (map h (select p rows)) ≡ false
    unfolding select
    absent id [] e = refl
    absent id (r ∷ rs) e = ground (arith, absent id rs, key-h r)

    update-head_self :
        (r : SessionRow) (rs : List SessionRow)
        → any (is_row r.id) rs ≡ false
        → update (is_row r.id) (g (h r)) (r ∷ rs) ≡ f r ∷ rs
    unfolding update
    update-head_self r rs e =
        ground (arith, ==_refl r.id, g-h r, update_none (is_row r.id) (g (h r)) rs e)

    update-head :
        (r : SessionRow) (rs : List SessionRow)
        → any (is_row r.id) rs ≡ false
        → update (is_row (key (h r))) (g (h r)) (r ∷ rs) ≡ f r ∷ rs
    update-head r rs e = rw (key-h r) (update-head_self r rs e)

    pub sweep-select :
        (rows : List SessionRow)
        → Distinct rows
        → sweep (map h (select p rows)) rows ≡ update p f rows
    unfolding select update
    sweep-select [] d = refl
    sweep-select (r ∷ rs) d = elim (Bool-cases (p r)) [
      | inl hit ↦ rw hit (
          ap (sweep (map h (select p rs))) (update-head r rs d.0)
          ∙ (sweep-cons (map h (select p rs)) (f r) rs (rw (id-f r) (absent r.id rs d.0))
              ∙ ap (◌∷◌ (f r)) (sweep-select rs d.1)))
      | inr miss ↦ rw miss (
          sweep-cons (map h (select p rs)) r rs (absent r.id rs d.0)
          ∙ ap (◌∷◌ r) (sweep-select rs d.1))
    ]
