-- ===== src/Store/Sessions/Invariant.antt =====
-- What holds of the table of focus sessions between two operations.
use along.Prelude.{
  ℕ, ◌≡◌, refl, subst, ◌∙◌, ◌≤◌, Bool, true, false, ◌&&◌, ◌||◌, Option, none, some, List, [], ◌∷◌,
  ◌++◌, map, ==_iff, any, find, update, All, arith, is_some, Bool-cases, inl, inr, any-append,
  All-append, if◌then◌else◌,
}
use mathlib.Core.Bool.{false≢true}
use along.Domain.Models.{SessionState, opened, together, paused, completed, cancelled, state_eq}
use along.Store.Schema.{SessionRow}
use along.Store.Sessions.Elapsed.Sweep.{is_row, Distinct}
use along.Store.Sessions.Start.{is_active_state, is_active_in}

-- pause_origin IN ('open', 'together')
abbrev origin_ticks : Option SessionState → Bool
origin_ticks none = true
origin_ticks (some s) = state_eq s opened || state_eq s together

-- The timestamps and the origin that a row has are those that its state calls for.
pub record IsValidRow (r : SessionRow) : Type 0 where
  pub paused_iff : is_some r.paused_at ≡ state_eq r.state paused
  pub origin_iff : is_some r.pause_origin ≡ state_eq r.state paused
  pub origin : origin_ticks r.pause_origin ≡ true
  pub completed_iff : is_some r.completed_at ≡ state_eq r.state completed
  pub cancelled_iff : is_some r.cancelled_at ≡ state_eq r.state cancelled
  pub duration : r.duration_seconds ≡ 1500
  pub version_pos : 1 ≤ r.version

-- No pair has two active sessions: one_active_session_per_pair_idx.
abbrev pub OneActive : List SessionRow → Type 0
OneActive [] = Unit {0}
OneActive (r ∷ rs) =
    ((is_active_state r.state && any (is_active_in r.pair_id) rs) ≡ false) × OneActive rs

pub record IsConsistent (rows : List SessionRow) : Type 0 where
  pub valid : All IsValidRow rows
  pub distinct : Distinct rows
  pub one_active : OneActive rows

-- How a row may change.
pub record Evolves (r r' : SessionRow) : Type 0 where
  pub id : r'.id ≡ r.id
  pub pair_id : r'.pair_id ≡ r.pair_id
  pub fades : is_active_state r'.state ≡ true → is_active_state r.state ≡ true
  pub valid : IsValidRow r'

module _ (g : SessionRow → SessionRow) where
  abbrev pub EvolvesAll : List SessionRow → Type 0
  EvolvesAll = All (λ r. Evolves r (g r))

  any-row-map :
      (id : ℕ) (rows : List SessionRow)
      → EvolvesAll rows
      → any (is_row id) (map g rows) ≡ any (is_row id) rows
  any-row-map id [] h = refl
  any-row-map id (r ∷ rs) h = rw (h.0.id, any-row-map id rs h.1)

  any-active-map :
      (pair : ℕ) (rows : List SessionRow)
      → EvolvesAll rows
      → any (is_active_in pair) rows ≡ false
      → any (is_active_in pair) (map g rows) ≡ false
  any-active-map pair [] h e = refl
  any-active-map pair (r ∷ rs) h e =
      ground (arith, h.0.pair_id, h.0.fades, any-active-map pair rs h.1)

  valid-map : (rows : List SessionRow) → EvolvesAll rows → All IsValidRow (map g rows)
  valid-map [] h = tt
  valid-map (r ∷ rs) h = (h.0.valid, valid-map rs h.1)

  Distinct-map : (rows : List SessionRow) → EvolvesAll rows → Distinct rows → Distinct (map g rows)
  Distinct-map [] h d = tt
  Distinct-map (r ∷ rs) h d = (rw h.0.id (any-row-map r.id rs h.1 ∙ d.0), Distinct-map rs h.1 d.1)

  OneActive-map :
      (rows : List SessionRow) → EvolvesAll rows → OneActive rows → OneActive (map g rows)
  OneActive-map [] h d = tt
  OneActive-map (r ∷ rs) h d = (
    rw h.0.pair_id (ground (arith, h.0.fades, any-active-map r.pair_id rs h.1)),
    OneActive-map rs h.1 d.1,
  )

  pub map-IsConsistent :
      (rows : List SessionRow) → EvolvesAll rows → IsConsistent rows → IsConsistent (map g rows)
  map-IsConsistent rows h c = record {
    valid = valid-map rows h;
    distinct = Distinct-map rows h c.distinct;
    one_active = OneActive-map rows h c.one_active;
  }

-- A new row with an id of its own that is not active, or whose pair has no active row.
module _ (row : SessionRow) where
  Distinct-append :
      (rows : List SessionRow)
      → any (is_row row.id) rows ≡ false
      → Distinct rows
      → Distinct (rows ++ row ∷ [])
  Distinct-append [] e d = (refl, tt)
  Distinct-append (r ∷ rs) e d = (
    rw (any-append (is_row r.id) rs (row ∷ [])) (ground arith),
    Distinct-append rs (ground arith) d.1,
  )

  OneActive-append :
      (rows : List SessionRow)
      → (is_active_state row.state && any (is_active_in row.pair_id) rows) ≡ false
      → OneActive rows
      → OneActive (rows ++ row ∷ [])
  OneActive-append [] e d = (ground arith, tt)
  OneActive-append (r ∷ rs) e d = (
    rw (any-append (is_active_in r.pair_id) rs (row ∷ [])) (ground arith),
    OneActive-append rs (ground arith) d.1,
  )

  pub append-IsConsistent :
      (rows : List SessionRow)
      → IsValidRow row
      → any (is_row row.id) rows ≡ false
      → (is_active_state row.state && any (is_active_in row.pair_id) rows) ≡ false
      → IsConsistent rows
      → IsConsistent (rows ++ row ∷ [])
  append-IsConsistent rows v fresh idle c = record {
    valid = All-append IsValidRow rows (row ∷ []) c.valid (v, tt);
    distinct = Distinct-append rows fresh c.distinct;
    one_active = OneActive-append rows idle c.one_active;
  }

-- A row that stays as it is evolves.
pub Evolves-self : (r : SessionRow) → IsValidRow r → Evolves r r
Evolves-self r v = record { id = refl; pair_id = refl; fades = λ a. a; valid = v }

-- An UPDATE is a map.
pub update-map :
    (p : SessionRow → Bool) (f : SessionRow → SessionRow) (rows : List SessionRow)
    → update p f rows ≡ map (λ r. if p r then f r else r) rows
unfolding update
update-map p f [] = refl
update-map p f (r ∷ rs) = rw (update-map p f rs)

module _ (id : ℕ) (f : SessionRow → SessionRow) where
  abbrev set_row : SessionRow → SessionRow
  set_row r = if is_row id r then f r else r

  absent-EvolvesAll :
      (rows : List SessionRow)
      → any (is_row id) rows ≡ false
      → All IsValidRow rows
      → EvolvesAll set_row rows
  absent-EvolvesAll [] e v = tt
  absent-EvolvesAll (r ∷ rs) e v = elim (Bool-cases (is_row id r)) [
    | inl hit ↦ absurd (false≢true (ground arith))
    | inr miss ↦ (rw miss (Evolves-self r v.0), absent-EvolvesAll rs (ground arith) v.1)
  ]

  found-EvolvesAll :
      (rows : List SessionRow) (row : SessionRow)
      → find (is_row id) rows ≡ some row
      → Evolves row (f row)
      → All IsValidRow rows
      → Distinct rows
      → EvolvesAll set_row rows
  unfolding find
  found-EvolvesAll [] row e ev v d = tt
  found-EvolvesAll (r ∷ rs) row e ev v d = elim (Bool-cases (is_row id r)) [
    | inl hit ↦
        let same : row ≡ r = ground arith in
        let only : any (is_row id) rs ≡ false =
          subst (λ n. any (is_row n) rs ≡ false) ((==_iff r.id id).0 hit) d.0 in
        (rw hit (subst (λ x. Evolves x (f x)) same ev), absent-EvolvesAll rs only v.1)
    | inr miss ↦ (rw miss (Evolves-self r v.0), found-EvolvesAll rs row (ground arith) ev v.1 d.1)
  ]

  -- The row that a lookup by id finds is the only one with that id, so that an UPDATE of it keeps
  -- the table consistent if the row evolves.
  pub update-IsConsistent :
      (rows : List SessionRow) (row : SessionRow)
      → find (is_row id) rows ≡ some row
      → Evolves row (f row)
      → IsConsistent rows
      → IsConsistent (update (is_row id) f rows)
  update-IsConsistent rows row e ev c =
      rw (update-map (is_row id) f rows)
        (map-IsConsistent set_row rows (found-EvolvesAll rows row e ev c.valid c.distinct) c)
