-- ===== src/Store/Auth/Refresh/Family.antt =====
-- The tokens of a family: at most one of them is not consumed.
use along.Prelude.{
  ℕ, ◌+◌, ◌≤◌, ◌≡◌, refl, sym, ◌∙◌, Bool, true, false, ◌&&◌, none, some, List, [], ◌∷◌, ◌++◌, ◌==◌,
  any, find, update, count, is_none, if◌then◌else◌, arith, any-append, any-update, count-append,
  count-update_keep, count-update_drop, count-of-found, find-holds,
}
use along.Store.Schema.{RefreshRow}
use along.Store.Auth.Logins.{new_refresh}
use along.Store.Auth.Refresh.{is_unconsumed, consume_token, revoke_token}

abbrev pub is_current : ℕ → RefreshRow → Bool
is_current family r = r.family_id == family && is_none r.consumed_at

-- `rooted`: a family of which no token has the id, as its first would, has no current token.
pub record IsChained (rows : List RefreshRow) : Type 0 where
  pub one : (family : ℕ) → count (is_current family) rows ≤ 1
  pub rooted :
      (family : ℕ) → any (λ r. r.id == family) rows ≡ false → count (is_current family) rows ≡ 0

-- A sign-in begins a family.
pub signed_in-IsChained :
    (id session hash expires : ℕ) (rows : List RefreshRow)
    → any (λ r. r.id == id) rows ≡ false
    → IsChained rows
    → IsChained (rows ++ new_refresh id id session none hash expires ∷ [])
unfolding new_refresh count
signed_in-IsChained id session hash expires rows fresh h = record {
  one = λ family. ground (
    arith,
    h.one family,
    h.rooted family,
    count-append (is_current family) rows (new_refresh id id session none hash expires ∷ []),
  );
  rooted = λ family absent. ground (
    arith,
    h.rooted family,
    any-append (λ r. r.id == family) rows (new_refresh id id session none hash expires ∷ []),
    count-append (is_current family) rows (new_refresh id id session none hash expires ∷ []),
  );
}

pub revoked-IsChained :
    (q : RefreshRow → Bool) (now : ℕ) (rows : List RefreshRow)
    → IsChained rows
    → IsChained (update q (revoke_token now) rows)
unfolding revoke_token
revoked-IsChained q now rows h = record {
  one = λ family. ground (
    arith,
    h.one family,
    count-update_keep (is_current family) q (revoke_token now) (λ r. refl) rows,
  );
  rooted = λ family absent.
      count-update_keep (is_current family) q (revoke_token now) (λ r. refl) rows
      ∙ h.rooted family
          (sym (any-update (λ r. r.id == family) q (revoke_token now) (λ r. refl) rows) ∙ absent);
}

module _ (id new_id session hash expires now : ℕ) (t : RefreshRow) (rows : List RefreshRow)
    (found : find (λ r. r.id == id) rows ≡ some t) (unconsumed : t.consumed_at ≡ none) where
  current_of :
      (family : ℕ)
      → (t.family_id == family) ≡ true
      → 1 ≤ count (λ r. is_current family r && is_unconsumed id r) rows
  unfolding is_unconsumed
  current_of family e =
      count-of-found (λ r. is_current family r && is_unconsumed id r) (λ r. r.id == id) rows t found
        (ground (arith, find-holds (λ r. r.id == id) rows t found))

  moved : List RefreshRow
  moved =
      update (is_unconsumed id) (consume_token now new_id) rows
      ++ new_refresh new_id t.family_id session (some id) hash expires ∷ []

  count-moved :
      (family : ℕ)
      → count (is_current family) moved
          + count (λ r. is_current family r && is_unconsumed id r) rows
        ≡ count (is_current family) rows + (if t.family_id == family then 1 else 0)
  unfolding moved consume_token new_refresh count
  count-moved family = ground (
    arith,
    count-append (is_current family) (update (is_unconsumed id) (consume_token now new_id) rows)
        (new_refresh new_id t.family_id session (some id) hash expires ∷ []),
    count-update_drop (is_current family) (is_unconsumed id) (consume_token now new_id)
        (λ r. ground arith) rows,
  )

  any-moved :
      (family : ℕ)
      → any (λ r. r.id == family) moved ≡ false
      → any (λ r. r.id == family) rows ≡ false
  unfolding moved consume_token
  any-moved family absent = ground (
    arith,
    any-append (λ r. r.id == family) (update (is_unconsumed id) (consume_token now new_id) rows)
        (new_refresh new_id t.family_id session (some id) hash expires ∷ []),
    any-update (λ r. r.id == family) (is_unconsumed id) (consume_token now new_id) (λ r. refl) rows,
  )

  -- A rotation moves the family on to its new token.
  pub rotated-IsChained :
      IsChained rows
      → IsChained (
          update (is_unconsumed id) (consume_token now new_id) rows
          ++ new_refresh new_id t.family_id session (some id) hash expires ∷ [])
  unfolding moved
  rotated-IsChained h = record {
    one = λ family. ground (arith, h.one family, current_of family, count-moved family);
    rooted = λ family absent.
        ground
          (arith, h.rooted family (any-moved family absent), current_of family, count-moved family);
  }
