-- ===== src/Service/RecoveryCodes.antt =====
-- The recovery codes of server/internal/auth/recovery.go. Argon2, base64 and unicode.ToUpper are
-- parameters, and the random bytes are arguments. A text that is hashed is its code points.
pub mod Laws
use along.Prelude.{
  ℕ, zero, suc, ◌+◌, ◌-◌, ◌*◌, ◌%◌, ◌^◌, String, text_append, Bool, true, false, not, ◌&&◌, ◌||◌,
  Option, none, some, List, [], ◌∷◌, map, length, take, ◌==◌, ltb, leb, str_eq, bytes_eq,
  trim_space, codes, cut_text, split_text, join_text, if◌then◌else◌,
}
use Prim.Native.Char.{Char, code}
use along.Service.Tokens.{◌>>=◌}

pub record Hashing : Type 0 where
  pub to_upper : ℕ → ℕ
  -- argon2.IDKey: the password, the salt, the iterations, the memory, the parallelism and the length.
  pub id_key : List ℕ → List ℕ → ℕ → ℕ → ℕ → ℕ → List ℕ
  pub encode : List ℕ → String
  pub decode : String → Option (List ℕ)

abbrev pub recovery_alphabet : String
recovery_alphabet = "ABCDEFGHJKLMNPQRSTUVWXYZ23456789"

-- The character of a text at an index, as a text; an index that is too large is never used.
char_at : ℕ → String → String
char_at n String.[] = ""
char_at zero (String.◌∷◌ c s) = String.◌∷◌ c ""
char_at (suc n) (String.◌∷◌ c s) = char_at n s

letters : List ℕ → String
unfolding char_at
letters [] = ""
letters (b ∷ bs) = text_append (char_at (b % 32) recovery_alphabet) (letters bs)

drop_bytes : ℕ → List ℕ → List ℕ
drop_bytes zero xs = xs
drop_bytes (suc n) [] = []
drop_bytes (suc n) (x ∷ xs) = drop_bytes n xs

-- A code of GenerateRecoveryCodes, from 12 random bytes.
unfoldable pub recovery_code : List ℕ → String
unfolding letters drop_bytes join_text
recovery_code random = join_text "-" (
    letters (take 4 random)
    ∷ letters (take 4 (drop_bytes 4 random))
    ∷ letters (drop_bytes 8 random)
    ∷ [])

without_dashes : List ℕ → List ℕ
without_dashes [] = []
without_dashes (c ∷ cs) =
    let rest = without_dashes cs in if not (c == b'-') && not (c == b' ') then c ∷ rest else rest

-- normalizeCode
unfoldable pub normalize_code : Hashing → String → List ℕ
unfolding without_dashes
normalize_code lib text = without_dashes (map lib.to_upper (trim_space (codes text)))

-- HashRecoveryCode, from 16 random bytes.
unfoldable pub hash_recovery_code : Hashing → List ℕ → String → String
unfolding normalize_code join_text
hash_recovery_code lib salt text = join_text "$" (
    ""
    ∷ "argon2id"
    ∷ "v=19"
    ∷ "m=65536,t=3,p=1"
    ∷ lib.encode salt
    ∷ lib.encode (lib.id_key (normalize_code lib text) salt 3 65536 1 32)
    ∷ [])

-- strconv.ParseUint in base 10, for 32 bits.
parse_digits : ℕ → String → Option ℕ
parse_digits n String.[] = some n
parse_digits n (String.◌∷◌ c s) =
    let rest = parse_digits (n * 10 + (code c - 48)) s in
    if leb 48 (code c) && leb (code c) 57 then rest else none

unfoldable pub parse_uint : String → Option ℕ
unfolding parse_digits
parse_uint text =
    if str_eq text ""
    then none
    else do n ← parse_digits 0 text; if ltb n (2 ^ 32) then some n else none

-- The parameters of Argon2 in a hash.
pub record Parameters : Type 0 where
  pub memory : ℕ
  pub iterations : ℕ
  pub parallelism : ℕ

-- The parallelism is a byte.
unfoldable pub set_parameter : Parameters → String → ℕ → Parameters
set_parameter p name value =
    if str_eq name "m"
    then record p { memory = value }
    else if str_eq name "t"
    then record p { iterations = value }
    else if str_eq name "p"
    then record p { parallelism = value % 2 ^ 8 }
    else p

-- The loop over the parameters.
read_parameters : Parameters → List String → Option Parameters
unfolding set_parameter parse_uint
read_parameters p [] = some p
read_parameters p (value ∷ values) = do
  pair ← cut_text b'=' value
  parsed ← parse_uint pair.1
  read_parameters (set_parameter p pair.0 parsed) values

unfoldable pub is_set : Parameters → Bool
is_set p = not (p.memory == 0 || p.iterations == 0 || p.parallelism == 0)

unfoldable pub verify_with :
    Hashing → String → Option Parameters → Option (List ℕ) → Option (List ℕ) → Bool
unfolding is_set
verify_with lib text (some p) (some salt) (some expected) =
    is_set p
    && bytes_eq
        (lib.id_key (normalize_code lib text) salt p.iterations p.memory p.parallelism
          (length expected))
        expected
verify_with lib text _ _ _ = false

unfoldable pub verify_parts : Hashing → String → List String → Bool
unfolding verify_with read_parameters
verify_parts lib text (start ∷ name ∷ version ∷ parameters ∷ salt ∷ hash ∷ []) =
    str_eq name "argon2id"
    && str_eq version "v=19"
    && verify_with lib text
        (read_parameters (record { memory = 0; iterations = 0; parallelism = 0 })
          (split_text b',' parameters))
        (lib.decode salt) (lib.decode hash)
verify_parts lib text _ = false

-- VerifyRecoveryCode
unfoldable pub verify_recovery_code : Hashing → String → String → Bool
unfolding verify_parts
verify_recovery_code lib text encoded = verify_parts lib text (split_text b'$' encoded)

-- newRecoveryKit, from the random bytes of each code and of the salt of its hash.
unfoldable pub new_recovery_kit : Hashing → List (List ℕ × List ℕ) → List String × List String
unfolding recovery_code hash_recovery_code
new_recovery_kit lib random = (
  map (λ r. recovery_code r.0) random,
  map (λ r. hash_recovery_code lib r.1 (recovery_code r.0)) random,
)
