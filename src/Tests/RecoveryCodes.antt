-- ===== src/Tests/RecoveryCodes.antt =====
-- A code of twelve random bytes, and the same code as a person may write it.
use along.Prelude.{
  ℕ, zero, suc, ◌+◌, ◌-◌, ◌&&◌, ◌≡◌, refl, ap, some, List, [], ◌∷◌, length, leb, bytes_eq,
  trim_space, join_text, if◌then◌else◌,
}
use along.Service.RecoveryCodes.{
  Hashing, recovery_code, normalize_code, hash_recovery_code, verify_recovery_code,
}
use along.Service.RecoveryCodes.Laws.{IsHashing, key_of, verify_recovery_code-hash_recovery_code}
use along.Tests.Tokens.{encode, decode, decode-encode, lacks-encode}

repeat : ℕ → ℕ → List ℕ
repeat x zero = []
repeat x (suc n) = x ∷ repeat x n

length-repeat : (x n : ℕ) → length (repeat x n) ≡ n
unfolding repeat
length-repeat x zero = refl
length-repeat x (suc n) = ap suc (length-repeat x n)

sum : List ℕ → ℕ
sum [] = 0
sum (x ∷ xs) = x + sum xs

abbrev hashing : Hashing
hashing = record {
  to_upper = λ c. if leb 97 c && leb c 122 then c - 32 else c;
  id_key = λ password salt time memory threads n. repeat (sum password) n;
  encode = encode;
  decode = λ text. some (decode 0 text);
}

hashing-IsHashing : IsHashing hashing
hashing-IsHashing = record {
  base64 = λ bytes. ap some (decode-encode bytes);
  plain = λ bytes. lacks-encode b'$' bytes refl refl;
  key_length = λ password salt time memory threads n. length-repeat (sum password) n;
}

codes_run :
    recovery_code (0 ∷ 1 ∷ 2 ∷ 3 ∷ 4 ∷ 5 ∷ 6 ∷ 7 ∷ 8 ∷ 31 ∷ 32 ∷ 255 ∷ []) ≡ "ABCD-EFGH-J9A9"
unfolding recovery_code join_text
codes_run = refl

normalizes : normalize_code hashing " abcd-efgh j9a9 " ≡ normalize_code hashing "ABCD-EFGH-J9A9"
unfolding normalize_code trim_space
normalizes = refl

verify_recovery_code-hash_recovery_code_example :
    verify_recovery_code hashing " abcd-efgh j9a9 "
      (hash_recovery_code hashing (7 ∷ []) "ABCD-EFGH-J9A9")
    ≡ bytes_eq
        (key_of hashing (7 ∷ []) " abcd-efgh j9a9 ")
        (key_of hashing (7 ∷ []) "ABCD-EFGH-J9A9")
verify_recovery_code-hash_recovery_code_example =
    verify_recovery_code-hash_recovery_code hashing hashing-IsHashing (7 ∷ []) "ABCD-EFGH-J9A9"
      " abcd-efgh j9a9 "
