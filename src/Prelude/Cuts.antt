-- ===== src/Prelude/Cuts.antt =====
-- Texts in lower case, and cut at a character: strings.ToLower, strings.EqualFold and strings.Cut.
use Prim.Native.Nat.{ℕ, ◌+◌}
use Prim.Native.String.{String}
use Prim.Native.Char.{Char, code}
use mathlib.Core.Bool.{Bool, ◌&&◌}
use mathlib.Core.Option.{Option, none, some}
use mathlib.Core.List.{List, [], ◌∷◌}
use along.Prelude.Tests.{◌==◌, leb, if◌then◌else◌}
use along.Prelude.Texts.{codes, bytes_eq}

-- unicode.ToLower, where its value is a letter of ASCII: U+0130 is İ, and U+212A the Kelvin sign. All
-- other code points are left as they are.
unfoldable pub to_lower : ℕ → ℕ
to_lower c =
    if leb 65 c && leb c 90 then c + 32 else if c == 304 then 105 else if c == 8490 then 107 else c

unfoldable pub lower_codes : List ℕ → List ℕ
unfolding to_lower
lower_codes [] = []
lower_codes (c ∷ cs) = to_lower c ∷ lower_codes cs

-- Whether a text is `ascii` in lower case.
unfoldable pub is_lower : String → String → Bool
unfolding lower_codes bytes_eq
is_lower text ascii = bytes_eq (lower_codes (codes text)) (codes ascii)

abbrev with_front : Char → Option (String × String) → Option (String × String)
with_front c none = none
with_front c (some (before, after)) = some (String.◌∷◌ c before, after)

-- strings.Cut, for a separator of one character.
unfoldable pub cut_text : ℕ → String → Option (String × String)
cut_text separator String.[] = none
cut_text separator (String.◌∷◌ c s) =
    let rest = cut_text separator s in
    if code c == separator then some ("", s) else with_front c rest
