-- ===== src/Prelude/Texts.antt =====
-- Texts and bytes: equality of bytes, the numbers of code points and of bytes, and the code points.
use Prim.Native.Nat.{ℕ, zero, suc, ◌+◌, ◌/◌, ◌%◌, ◌<◌}
use Prim.Native.String.{String, ◌++◌}
use Prim.Native.Char.{code}
use mathlib.Core.Path.{◌≡◌, refl}
use mathlib.Core.Bool.{Bool, true, false, ◌&&◌}
use mathlib.Core.List.{List, [], ◌∷◌}
use native.Mathlib.Omega.{arith}
use along.Prelude.Tests.{◌==◌, leb, ltb, if◌then◌else◌}

-- Equality of two values of the type bytea.
unfoldable pub bytes_eq : List ℕ → List ℕ → Bool
bytes_eq [] [] = true
bytes_eq [] (y ∷ ys) = false
bytes_eq (x ∷ xs) [] = false
bytes_eq (x ∷ xs) (y ∷ ys) = x == y && bytes_eq xs ys

pub bytes_eq_refl : (xs : List ℕ) → bytes_eq xs xs ≡ true
unfolding bytes_eq
bytes_eq_refl [] = refl
bytes_eq_refl (x ∷ xs) = ground (arith, bytes_eq_refl xs)

pub bytes_eq_sound : (xs ys : List ℕ) → bytes_eq xs ys ≡ true → xs ≡ ys
unfolding bytes_eq
bytes_eq_sound [] [] h = refl
bytes_eq_sound [] (y ∷ ys) h = cc
bytes_eq_sound (x ∷ xs) [] h = cc
bytes_eq_sound (x ∷ xs) (y ∷ ys) h = ground (arith, bytes_eq_sound xs ys)

-- char_length
abbrev pub char_length : String → ℕ
char_length String.[] = 0
char_length (String.◌∷◌ c s) = suc (char_length s)

-- n BETWEEN lo AND hi
abbrev pub between : ℕ → ℕ → ℕ → Bool
between lo hi n = leb lo n && leb n hi

abbrev pub codes : String → List ℕ
codes String.[] = []
codes (String.◌∷◌ c s) = code c ∷ codes s

-- The number of bytes of a code point in UTF-8, and of a text: len of a Go string.
abbrev pub utf8_width : ℕ → ℕ
utf8_width c = if ltb c 128 then 1 else if ltb c 2048 then 2 else if ltb c 65536 then 3 else 4

abbrev pub byte_length : String → ℕ
byte_length String.[] = 0
byte_length (String.◌∷◌ c s) = utf8_width (code c) + byte_length s

-- A decimal digit.
unfoldable pub digit : ℕ → String
digit zero = "0"
digit (suc zero) = "1"
digit (suc (suc zero)) = "2"
digit (suc (suc (suc zero))) = "3"
digit (suc (suc (suc (suc zero)))) = "4"
digit (suc (suc (suc (suc (suc n))))) =
    if n == 0
    then "5"
    else if n == 1
    then "6"
    else if n == 2
    then "7"
    else if n == 3
    then "8"
    else "9"

-- The digits of `n`, on fuel.
digits : ℕ → ℕ → String
digits zero n = ""
digits (suc fuel) n =
    let longer = digits fuel (n / 10) ++ digit (n % 10) in if ltb n 10 then digit n else longer

-- The verb %d.
unfoldable pub decimal : ℕ → String
unfolding digits
decimal n = digits (suc n) n

-- More fuel than the number gives the same digits.
digits_fuel : (fuel more n : ℕ) → n < fuel → n < more → digits fuel n ≡ digits more n
unfolding digits
digits_fuel zero more n h k = elim h [ ]
digits_fuel (suc fuel) zero n h k = elim k [ ]
digits_fuel (suc fuel) (suc more) n h k = ground (arith, digits_fuel fuel more (n / 10))
