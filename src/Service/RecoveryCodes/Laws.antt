-- ===== src/Service/RecoveryCodes/Laws.antt =====
-- Which texts VerifyRecoveryCode accepts for a code that was hashed.
use along.Prelude.{
  ℕ, ◌≡◌, refl, String, true, some, List, [], ◌∷◌, length, bytes_eq, cut_text, split_text, lacks,
  split_text-join_text, All,
}
use along.Service.RecoveryCodes.{
  Hashing, normalize_code, hash_recovery_code, parse_uint, set_parameter, read_parameters, is_set,
  verify_with, verify_parts, verify_recovery_code,
}

-- What the documentation of base64 and Argon2 says.
pub record IsHashing (lib : Hashing) : Type 0 where
  pub base64 : (bytes : List ℕ) → lib.decode (lib.encode bytes) ≡ some bytes
  pub plain : (bytes : List ℕ) → lacks b'$' (lib.encode bytes) ≡ true
  pub key_length :
      (password salt : List ℕ) (time memory threads n : ℕ)
      → length (lib.id_key password salt time memory threads n) ≡ n

abbrev pub key_of : Hashing → List ℕ → String → List ℕ
key_of lib salt text = lib.id_key (normalize_code lib text) salt 3 65536 1 32

parameters_read :
    read_parameters
      (record { memory = 0; iterations = 0; parallelism = 0 })
      (split_text b',' "m=65536,t=3,p=1")
    ≡ some (record { memory = 65536; iterations = 3; parallelism = 1 })
unfolding read_parameters split_text cut_text parse_uint set_parameter
parameters_read = refl

module _ (lib : Hashing) (law : IsHashing lib) (salt : List ℕ) (given : String) where
  parts : List String
  parts =
      "argon2id"
      ∷ "v=19"
      ∷ "m=65536,t=3,p=1"
      ∷ lib.encode salt
      ∷ lib.encode (key_of lib salt given)
      ∷ []

  parts_plain : All (λ t. lacks b'$' t ≡ true) ("" ∷ parts)
  unfolding parts
  parts_plain =
      (refl, (refl, (refl, (refl, (law.plain salt, (law.plain (key_of lib salt given), tt))))))

  hash_split : split_text b'$' (hash_recovery_code lib salt given) ≡ "" ∷ parts
  unfolding hash_recovery_code parts
  hash_split = split_text-join_text b'$' "$" "" parts parts_plain refl

  -- If base64 and Argon2 do what they document, a text is accepted for the hash of a code exactly
  -- where its normal form has the same key, with the salt of the hash, as the normal form of the
  -- code.
  pub verify_recovery_code-hash_recovery_code :
      (text : String)
      → verify_recovery_code lib text (hash_recovery_code lib salt given)
        ≡ bytes_eq (key_of lib salt text) (key_of lib salt given)
  unfolding verify_recovery_code verify_parts verify_with is_set parts
  verify_recovery_code-hash_recovery_code text =
      rw
        (
          hash_split,
          parameters_read,
          law.base64 salt,
          law.base64 (key_of lib salt given),
          law.key_length (normalize_code lib given) salt 3 65536 1 32,
        )
        refl
