-- ===== src/Tests/Client.antt =====
-- A provider that has signed a token at 10 s, asked at 20 s and at an hour; a cipher whose nonce
-- has two bytes; and a job that is sent.
use along.Prelude.{◌*◌, ◌≡◌, refl, inr, none, some, [], ◌∷◌, pos}
use along.Domain.Models.{second, hour}
use along.Store.Push.{PushJob}
use along.Worker.Cipher.{Gcm, IsGcm, encrypt, decrypt, decrypt-encrypt}
use along.Worker.Client.{
  TokenProvider, Transport, get_token, renewed, send, request_of, request_with, with_payload,
  apns_payload, usable_token, answer_of, seconds_of,
}
use along.Worker.Client.Laws.{Provides, get_token-Provides}

-- The nonce is checked, and the text is kept as it is.
abbrev gcm : Gcm
gcm = record {
  nonce_size = 2;
  seal = λ nonce plaintext. plaintext;
  open_sealed = λ nonce ciphertext. some ciphertext;
}

gcm-IsGcm : IsGcm gcm
gcm-IsGcm = record { opens = λ nonce plaintext size. refl }

decrypt-encrypt_example : decrypt gcm (1 ∷ 2 ∷ 7 ∷ 8 ∷ []) ≡ some (7 ∷ 8 ∷ [])
unfolding encrypt
decrypt-encrypt_example =
    decrypt-encrypt gcm gcm-IsGcm (1 ∷ 2 ∷ []) (7 ∷ 8 ∷ []) (1 ∷ 2 ∷ 7 ∷ 8 ∷ []) refl refl

abbrev transport : Transport
transport = record {
  sign = λ team key now. some "signed";
  decrypt = λ bytes. some (7 ∷ 8 ∷ []);
  path_escape = λ bytes. "78";
  marshal = λ alert. some "{}";
  do_request = λ r. some (record { status = 429; reason = none; retry_after = some (pos 3) });
}

abbrev provider : TokenProvider
provider = record { team_id = "T"; key_id = "K"; token = "signed"; issued = 10 * second }

get_token-Provides_example :
    Provides transport (20 * second) provider (get_token transport (20 * second) provider)
get_token-Provides_example =
    get_token-Provides transport (20 * second) provider (record { signed = inr refl })

keeps_token : get_token transport (20 * second) provider ≡ (some "signed", provider)
unfolding get_token
keeps_token = refl

renews_token : (get_token transport hour provider).1.issued ≡ hour
unfolding get_token renewed
renews_token = refl

abbrev job : PushJob
job = record {
  id = 1;
  device_id = 2;
  token_cipher = [];
  environment = "sandbox";
  topic = "along";
  payload = record { title = "T"; body = "B"; deep_link = "/" };
  attempts = 1;
}

sends :
    (send transport (20 * second) provider job).0
    ≡ some (record { status_code = 429; reason = ""; retry_after = 3 * second })
unfolding send request_of request_with with_payload apns_payload usable_token answer_of get_token
sends = refl

-- The least number of seconds whose nanoseconds wrap, and one that wraps to a positive duration.
waits : (seconds_of (some (pos 9223372037)) ≡ 0) × (seconds_of (some (pos 18446744074)) ≡ 290449)
waits = (refl, refl)
