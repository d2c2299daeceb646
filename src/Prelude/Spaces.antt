-- ===== src/Prelude/Spaces.antt =====
-- White space, and texts without it at their ends: strings.TrimSpace, on code points and on texts.
use Prim.Native.Nat.{ℕ, zero, suc}
use Prim.Native.String.{String}
use Prim.Native.Char.{Char, code}
use mathlib.Core.Bool.{Bool, true, false, ◌&&◌, ◌||◌}
use mathlib.Core.List.{List, [], ◌∷◌}
use along.Prelude.Tests.{◌==◌, leb, if◌then◌else◌}

-- unicode.IsSpace
unfoldable pub is_space : ℕ → Bool
is_space c =
    (leb 9 c && leb c 13)
    || c == 32
    || c == 133
    || c == 160
    || c == 5760
    || (leb 8192 c && leb c 8202)
    || c == 8232
    || c == 8233
    || c == 8239
    || c == 8287
    || c == 12288

unfoldable pub trim_left : List ℕ → List ℕ
trim_left [] = []
trim_left (c ∷ cs) = let rest = trim_left cs in if is_space c then rest else c ∷ cs

abbrev is_empty : List ℕ → Bool
is_empty [] = true
is_empty (c ∷ cs) = false

unfoldable pub trim_right : List ℕ → List ℕ
trim_right [] = []
trim_right (c ∷ cs) =
    let rest = trim_right cs in if is_empty rest && is_space c then [] else c ∷ rest

unfoldable pub trim_space : List ℕ → List ℕ
unfolding is_space trim_left trim_right
trim_space text = trim_right (trim_left text)

text_left : String → String
text_left String.[] = ""
text_left (String.◌∷◌ c s) =
    let rest = text_left s in if is_space (code c) then rest else String.◌∷◌ c s

abbrev is_empty_text : String → Bool
is_empty_text String.[] = true
is_empty_text (String.◌∷◌ c s) = false

text_right : String → String
text_right String.[] = ""
text_right (String.◌∷◌ c s) =
    let rest = text_right s in
    if is_empty_text rest && is_space (code c) then "" else String.◌∷◌ c rest

-- The same on texts.
unfoldable pub trim_text : String → String
unfolding is_space text_left text_right
trim_text text = text_right (text_left text)

-- The first `n` code points of a text.
unfoldable pub text_prefix : ℕ → String → String
text_prefix zero s = ""
text_prefix (suc n) String.[] = ""
text_prefix (suc n) (String.◌∷◌ c s) = String.◌∷◌ c (text_prefix n s)

-- strings.Split, for a separator of one character.
abbrev with_first : Char → List String → List String
with_first c [] = String.◌∷◌ c "" ∷ []
with_first c (part ∷ parts) = String.◌∷◌ c part ∷ parts

unfoldable pub split_text : ℕ → String → List String
split_text separator String.[] = "" ∷ []
split_text separator (String.◌∷◌ c s) =
    let rest = split_text separator s in
    if code c == separator then "" ∷ rest else with_first c rest
