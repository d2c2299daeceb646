-- ===== src/Worker/Client/Laws.antt =====
-- The provider tokens that Send uses.
use along.Prelude.{
  ℕ, ◌+◌, ◌*◌, ◌≡◌, ◌<◌, ◌⊎◌, inl, inr, refl, sym, ◌∙◌, String, true, false, not, ◌&&◌, Option,
  none, some, str_eq, ltb, Bool-cases, arith,
}
use mathlib.Core.Bool.{true≢false}
use along.Domain.Models.{minute}
use along.Worker.Client.{Transport, TokenProvider, get_token, renewed}

-- The token that is kept, if there is one, was signed for the team and the key at its time.
pub record IsIssued (t : Transport) (p : TokenProvider) : Type 0 where
  pub signed : (str_eq p.token "" ≡ true) ⊎ (t.sign p.team_id p.key_id p.issued ≡ some p.token)

-- A token that is less than fifty minutes old at `now`.
pub record IsFresh (t : Transport) (p : TokenProvider) (now : ℕ) (token : String) : Type 0 where
  pub issued : ℕ
  pub signed : t.sign p.team_id p.key_id issued ≡ some token
  pub recent : now < issued + 50 * minute

-- What `get` ensures of its outcome, for a provider `p`.
abbrev pub Provides : Transport → ℕ → TokenProvider → Option String × TokenProvider → Type 0
Provides t now p (none, p') = IsIssued t p'
Provides t now p (some token, p') = IsIssued t p' × IsFresh t p now token

module _ (t : Transport) (now : ℕ) (p : TokenProvider) (kept : IsIssued t p) where
  renewed-Provides :
      (o : Option String) → t.sign p.team_id p.key_id now ≡ o → Provides t now p (renewed p now o)
  unfolding renewed
  renewed-Provides none at = kept
  renewed-Provides (some signed) at =
      (record { signed = inr at }, record { issued = now; signed = at; recent = omega arith })

  kept-Provides :
      str_eq p.token "" ≡ false → now < p.issued + 50 * minute → Provides t now p (some p.token, p)
  kept-Provides given recent = elim kept.signed [
    | inl empty ↦ absurd (true≢false (sym empty ∙ given))
    | inr signed ↦ (kept, record { issued = p.issued; signed = signed; recent = recent })
  ]

  -- If the token that the provider keeps was signed at the time that it keeps, then a token that
  -- `get` gives was signed less than fifty minutes before, for the provider's team and key, and the
  -- token that is kept afterwards was signed at the time that is kept with it, also on an error.
  pub get_token-Provides : Provides t now p (get_token t now p)
  unfolding get_token
  get_token-Provides =
      elim (Bool-cases (not (str_eq p.token "") && ltb now (p.issued + 50 * minute))) [
        | inl good ↦ rw good (kept-Provides (ground arith) (ground arith))
        | inr bad ↦ rw bad (renewed-Provides (t.sign p.team_id p.key_id now) refl)
      ]
