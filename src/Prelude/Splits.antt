-- ===== src/Prelude/Splits.antt =====
-- Texts split at a character, and joined again.
use Prim.Native.Nat.{ℕ}
use Prim.Native.String.{String, ◌++◌}
use Prim.Native.Char.{Char, code}
use mathlib.Core.Path.{◌≡◌, refl}
use mathlib.Core.Bool.{Bool, true, true≢false, not, ◌&&◌}
use mathlib.Core.List.{List, [], ◌∷◌}
use mathlib.Core.Logic.{inl, inr}
use native.Mathlib.Omega.{arith}
use text.Mathlib.TextLemmas.{nil-append, cons-append}
use along.Prelude.Tests.{◌==◌, Bool-cases}
use along.Prelude.Lists.{All}
use along.Prelude.Spaces.{split_text}

-- A text without a character.
abbrev pub lacks : ℕ → String → Bool
lacks c String.[] = true
lacks c (String.◌∷◌ x s) = not (code x == c) && lacks c s

pub split_text-lacks : (c : ℕ) (s : String) → lacks c s ≡ true → split_text c s ≡ s ∷ []
unfolding split_text
split_text-lacks c String.[] h = refl
split_text-lacks c (String.◌∷◌ x s) h = elim (Bool-cases (code x == c)) [
  | inl same ↦ absurd (true≢false (ground arith))
  | inr other ↦ rw (other, split_text-lacks c s (ground arith)) refl
]

-- A separator, as a text.
abbrev pub text_of : Char → String
text_of x = String.◌∷◌ x ""

pub split_text-append :
    (c : ℕ) (x : Char) (s t : String)
    → lacks c s ≡ true
    → (code x == c) ≡ true
    → split_text c (s ++ (text_of x ++ t)) ≡ s ∷ split_text c t
unfolding split_text
split_text-append c x String.[] t h is_c =
    rw (nil-append (text_of x ++ t), cons-append x "" t, nil-append t, is_c) refl
split_text-append c x (String.◌∷◌ y s) t h is_c = elim (Bool-cases (code y == c)) [
  | inl same ↦ absurd (true≢false (ground arith))
  | inr other ↦
      rw (cons-append y s (text_of x ++ t), other, split_text-append c x s t (ground arith) is_c)
        refl
]

-- strings.Join
unfoldable pub join_text : String → List String → String
join_text separator [] = ""
join_text separator (s ∷ []) = s
join_text separator (s ∷ t ∷ rest) = s ++ (separator ++ join_text separator (t ∷ rest))

-- Texts without the separator are what their join is split into.
pub split_text-join_text :
    (c : ℕ) (x : Char) (s : String) (rest : List String)
    → All (λ t. lacks c t ≡ true) (s ∷ rest)
    → (code x == c) ≡ true
    → split_text c (join_text (text_of x) (s ∷ rest)) ≡ s ∷ rest
unfolding join_text
split_text-join_text c x s [] h is_c = split_text-lacks c s h.0
split_text-join_text c x s (t ∷ rest) h is_c =
    rw
      (
        split_text-append c x s (join_text (text_of x) (t ∷ rest)) h.0 is_c,
        split_text-join_text c x t rest h.1 is_c,
      )
      refl
