-- ===== src/Worker/Cipher.antt =====
-- The cipher of server/internal/push/cipher.go. AES-GCM is a parameter; a nonce is drawn for each
-- text.
use along.Prelude.{
  ℕ, suc, zero, ◌≡◌, refl, ap, sym, subst, false, length-append, ◌∙◌, Option, none, some, List, [],
  ◌∷◌, ◌++◌, length, take, ltb, arith, if◌then◌else◌,
}

-- `seal` gives the text and its tag, and `open` fails where the tag does not fit.
pub record Gcm : Type 0 where
  pub nonce_size : ℕ
  pub seal : List ℕ → List ℕ → List ℕ
  pub open_sealed : List ℕ → List ℕ → Option (List ℕ)

-- The rest of a slice.
drop : ℕ → List ℕ → List ℕ
drop zero xs = xs
drop (suc n) [] = []
drop (suc n) (x ∷ xs) = drop n xs

-- Encrypt, with the random bytes of the nonce, where crypto/rand gave some.
unfoldable pub encrypt : Gcm → Option (List ℕ) → List ℕ → Option (List ℕ)
encrypt gcm none plaintext = none
encrypt gcm (some nonce) plaintext = some (nonce ++ gcm.seal nonce plaintext)

-- Decrypt
unfoldable pub decrypt : Gcm → List ℕ → Option (List ℕ)
unfolding drop
decrypt gcm ciphertext =
    if ltb (length ciphertext) gcm.nonce_size
    then none
    else gcm.open_sealed (take gcm.nonce_size ciphertext) (drop gcm.nonce_size ciphertext)

-- What the documentation of crypto/cipher says.
pub record IsGcm (gcm : Gcm) : Type 0 where
  pub opens :
      (nonce plaintext : List ℕ)
      → length nonce ≡ gcm.nonce_size
      → gcm.open_sealed nonce (gcm.seal nonce plaintext) ≡ some plaintext

take-append : (xs ys : List ℕ) → take (length xs) (xs ++ ys) ≡ xs
take-append [] ys = refl
take-append (x ∷ xs) ys = ap (λ l. x ∷ l) (take-append xs ys)

drop-append : (xs ys : List ℕ) → drop (length xs) (xs ++ ys) ≡ ys
unfolding drop
drop-append [] ys = refl
drop-append (x ∷ xs) ys = drop-append xs ys

-- If AES-GCM does what it documents, a text that was encrypted with a nonce of the right size is
-- decrypted as it was.
pub decrypt-encrypt :
    (gcm : Gcm)
    → IsGcm gcm
    → (nonce plaintext ciphertext : List ℕ) → length nonce ≡ gcm.nonce_size
    → encrypt gcm (some nonce) plaintext ≡ some ciphertext
    → decrypt gcm ciphertext ≡ some plaintext
unfolding encrypt decrypt
decrypt-encrypt gcm law nonce plaintext ciphertext size e =
    subst (λ c. decrypt gcm c ≡ some plaintext) (some_inj _ ciphertext e)
      (rw
        (
          long,
          ap (λ n. take n (nonce ++ gcm.seal nonce plaintext)) (sym size) ∙ take-append nonce _,
          ap (λ n. drop n (nonce ++ gcm.seal nonce plaintext)) (sym size) ∙ drop-append nonce _,
        )
        (law.opens nonce plaintext size))
  where
    some_inj : (a b : List ℕ) → some a ≡ some b → a ≡ b
    some_inj a b h = cc

    long : ltb (length (nonce ++ gcm.seal nonce plaintext)) gcm.nonce_size ≡ false
    long = ground (arith, length-append nonce (gcm.seal nonce plaintext), size)
