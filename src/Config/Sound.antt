-- ===== src/Config/Sound.antt =====
-- What a configuration that passes ValidateAPI satisfies.
use along.Prelude.{
  ℕ, ◌*◌, ◌≡◌, ◌≢◌, ◌≤◌, ◌↔◌, ◌⊎◌, inl, inr, refl, ap, sym, ◌∙◌, String, Bool, true, false, not,
  ◌&&◌, ◌||◌, Option, none, some, List, [], ◌∷◌, ◌++◌, length, ◌==◌, str_eq, str_eq_iff,
  byte_length, ℤ, pos, negsuc, at_least, at_most, All, Bool-cases, arith,
}
use mathlib.Core.Bool.{true≢false}
use along.Config.{Process, Config, Url, ConfigError, insecure_origin, minute, hour}
use along.Config.Validation.{
  reject, check_url, check_origin, check_origins, joined, api_errors, in_production, check_database,
  validate_api,
}

-- An origin that parses, and is under HTTPS in production.
pub record IsOrigin (p : Process) (production : Bool) (origin : String) : Type 0 where
  pub url : Url
  pub parses : p.parse_url origin ≡ some url
  pub scheme : url.scheme ≢ ""
  pub host : url.host ≢ ""
  pub https : (production ≡ false) ⊎ (url.scheme ≡ "https")

-- What ValidateAPI is to ensure; `minute` and `hour` count nanoseconds.
pub record IsSound (p : Process) (c : Config) : Type 0 where
  pub database : c.database_url ≢ ""
  pub database_parses : (url : Url) × (p.parse_url c.database_url ≡ some url)
  pub no_dev_keys : (in_production c ≡ false) ⊎ (c.allow_insecure_dev_keys ≡ false)
  pub jwt_key : 32 ≤ length c.jwt_signing_key
  pub push_key : length c.push_encryption_key ≡ 32
  pub rp_id : c.webauthn_rp_id ≢ ""
  pub some_origin : 1 ≤ length c.webauthn_rp_origins
  pub team : (in_production c ≡ false) ⊎ (byte_length c.apple_team_id ≡ 10)
  pub origins : All (IsOrigin p (in_production c)) c.webauthn_rp_origins
  pub access : (n : ℕ) × (c.access_token_ttl ≡ pos n) × (1 ≤ n) × (n ≤ 15 * minute)
  pub refresh : (n : ℕ) × (c.refresh_token_ttl ≡ pos n) × (24 * hour ≤ n)
  pub rate : (n : ℕ) × (c.rate_limit_per_minute ≡ pos n) × (10 ≤ n)

append-empty : {A : Type 0} (xs ys : List A) → xs ++ ys ≡ [] → (xs ≡ []) × (ys ≡ [])
append-empty [] ys e = (refl, e)
append-empty (x ∷ xs) ys e = cc

append_empty : {A : Type 0} (xs ys : List A) → xs ≡ [] → ys ≡ [] → xs ++ ys ≡ []
append_empty xs ys e f = rw (e, f) refl

reject_iff : (b : Bool) (error : ConfigError) → (reject b error ≡ []) ↔ (b ≡ false)
unfolding reject
reject_iff true error = (λ e. cc, λ e. cc)
reject_iff false error = (λ e. refl, λ e. refl)

-- A test that is made in production only.
reject-production_iff :
    (production b : Bool) (error : ConfigError)
    → (reject (production && b) error ≡ []) ↔ ((production ≡ false) ⊎ (b ≡ false))
unfolding reject
reject-production_iff true true error = (λ e. cc, λ e. elim e [ inl f ↦ cc | inr f ↦ cc ])
reject-production_iff true false error = (λ e. inr refl, λ e. refl)
reject-production_iff false b error = (λ e. inl refl, λ e. refl)

joined_iff : (xss : List (List ConfigError)) → (joined xss ≡ []) ↔ All (λ xs. xs ≡ []) xss
unfolding joined
joined_iff [] = (λ e. tt, λ h. refl)
joined_iff (xs ∷ xss) = (
  λ e. let (first, rest) = append-empty xs (joined xss) e in (first, (joined_iff xss).0 rest),
  λ h. append_empty xs (joined xss) h.0 ((joined_iff xss).1 h.1),
)

pub unequal : (a b : String) → (str_eq a b ≡ false) ↔ (a ≢ b)
unequal a b = (λ e same. true≢false (sym ((str_eq_iff a b).1 same) ∙ e), to)
  where
    to : a ≢ b → str_eq a b ≡ false
    to other = elim (Bool-cases (str_eq a b)) [
      | inl same ↦ absurd (other ((str_eq_iff a b).0 same))
      | inr differ ↦ differ
    ]

check_origin-iff-IsOrigin :
    (p : Process) (production : Bool) (origin : String)
    → (check_origin production origin (p.parse_url origin) ≡ []) ↔ IsOrigin p production origin
unfolding check_origin reject
check_origin-iff-IsOrigin p production origin = (λ e. to (p.parse_url origin) refl e, from)
  where
    https :
        (url : Url)
        → check_origin production origin (some url) ≡ []
        → (production ≡ false) ⊎ (url.scheme ≡ "https")
    https url e =
        elim ((reject-production_iff production (not (str_eq url.scheme "https"))
            (insecure_origin origin)).0
          (ground arith)) [ inl f ↦ inl f | inr f ↦ inr ((str_eq_iff _ _).0 (ground arith)) ]

    to :
        (o : Option Url)
        → p.parse_url origin ≡ o
        → check_origin production origin o ≡ []
        → IsOrigin p production origin
    to none at e = cc
    to (some url) at e = record {
      url = url;
      parses = at;
      scheme = (unequal url.scheme "").0 (ground arith);
      host = (unequal url.host "").0 (ground arith);
      https = https url e;
    }

    from : IsOrigin p production origin → check_origin production origin (p.parse_url origin) ≡ []
    from o =
        rw (o.parses, (unequal _ _).1 o.scheme, (unequal _ _).1 o.host)
          ((reject-production_iff production _ (insecure_origin origin)).1 (elim o.https [
            | inl f ↦ inl f
            | inr f ↦ inr (rw ((str_eq_iff o.url.scheme "https").1 f) refl)
          ]))

check_origins-iff-IsOrigin :
    (p : Process) (production : Bool) (origins : List String)
    → (check_origins p production origins ≡ []) ↔ All (IsOrigin p production) origins
unfolding check_origins
check_origins-iff-IsOrigin p production [] = (λ e. tt, λ h. refl)
check_origins-iff-IsOrigin p production (origin ∷ origins) =
    let (to, from) = check_origin-iff-IsOrigin p production origin in
    let (all_to, all_from) = check_origins-iff-IsOrigin p production origins in
    (
      λ e. let (first, rest) = append-empty _ _ e in (to first, all_to rest),
      λ h. append_empty _ _ (from h.0) (all_from h.1),
    )

check_database_iff :
    (p : Process) (text : String)
    → (check_database p text ≡ []) ↔ ((text ≢ "") × ((url : Url) × (p.parse_url text ≡ some url)))
unfolding check_database check_url
check_database_iff p text = (to, from)
  where
    parsed : (o : Option Url) → check_url o ≡ [] → (url : Url) × (o ≡ some url)
    parsed none e = cc
    parsed (some url) e = (url, refl)

    to : check_database p text ≡ [] → (text ≢ "") × ((url : Url) × (p.parse_url text ≡ some url))
    to e = elim (Bool-cases (str_eq text "")) [
      | inl empty ↦ ground arith
      | inr given ↦ ((unequal text "").0 given, parsed (p.parse_url text) (ground arith))
    ]

    from : (text ≢ "") × ((url : Url) × (p.parse_url text ≡ some url)) → check_database p text ≡ []
    from (given, (url, parses)) = rw ((unequal text "").1 given, parses) refl

pos-magnitude : (m n : ℕ) → pos m ≡ pos n → m ≡ n
pos-magnitude m n same = ap magnitude same
  where
    magnitude : ℤ → ℕ
    magnitude (pos k) = k
    magnitude (negsuc k) = 0

at_least_iff : (lo : ℕ) (z : ℤ) → (not (at_least lo z) ≡ false) ↔ ((n : ℕ) × (z ≡ pos n) × (lo ≤ n))
at_least_iff lo (pos m) =
    (λ e. (m, refl, ground arith), λ (n, same, le). ground (arith, pos-magnitude m n same))
at_least_iff lo (negsuc m) = (λ e. cc, λ (n, same, le). cc)

positive_to :
    (hi : ℕ) (z : ℤ)
    → (at_most 0 z || not (at_most hi z)) ≡ false
    → (n : ℕ) × (z ≡ pos n) × (1 ≤ n) × (n ≤ hi)
positive_to hi (pos m) e = (m, refl, ground arith, ground arith)
positive_to hi (negsuc m) e = cc

positive_from :
    (hi : ℕ) (z : ℤ)
    → ((n : ℕ) × (z ≡ pos n) × (1 ≤ n) × (n ≤ hi))
    → (at_most 0 z || not (at_most hi z)) ≡ false
positive_from hi z (n, same, lo, le) = rw same (ground arith)

map_right : {A B C : Type 0} → (B → C) → A ⊎ B → A ⊎ C
map_right f (inl a) = inl a
map_right f (inr b) = inr (f b)

is-ten_iff : (n : ℕ) → (not (n == 10) ≡ false) ↔ (n ≡ 10)
is-ten_iff n = (λ e. ground arith, λ e. ground arith)

-- ValidateAPI finds no error exactly where the configuration is sound.
pub validate_api-iff-IsSound : (p : Process) (c : Config) → (validate_api p c ≡ []) ↔ IsSound p c
unfolding validate_api api_errors
validate_api-iff-IsSound p c = (to, from)
  where
    to : validate_api p c ≡ [] → IsSound p c
    to e =
        let (
          database,
          (dev, (jwt, (push, (rp, (team, (origins, (access, (refresh, (rate, _))))))))),
        ) : All (λ xs. xs ≡ []) (api_errors p c) =
          (joined_iff (api_errors p c)).0 e in
        let (given, parses) = (check_database_iff p c.database_url).0 database in
        record {
          database = given;
          database_parses = parses;
          no_dev_keys = (reject-production_iff _ _ _).0 dev;
          jwt_key = ground (arith, (reject_iff _ _).0 jwt);
          push_key = ground (arith, (reject_iff _ _).0 push);
          rp_id = (unequal _ _).0 (ground (arith, (reject_iff _ _).0 rp));
          some_origin = ground (arith, (reject_iff _ _).0 rp);
          team =
              map_right (is-ten_iff (byte_length c.apple_team_id)).0
                ((reject-production_iff _ _ _).0 team);
          origins = (check_origins-iff-IsOrigin p _ _).0 origins;
          access = positive_to (15 * minute) _ ((reject_iff _ _).0 access);
          refresh = (at_least_iff _ _).0 ((reject_iff _ _).0 refresh);
          rate = (at_least_iff _ _).0 ((reject_iff _ _).0 rate);
        }

    from : IsSound p c → validate_api p c ≡ []
    from s = (joined_iff (api_errors p c)).1 (
      (check_database_iff p c.database_url).1 (s.database, s.database_parses),
      (
        (reject-production_iff _ _ _).1 s.no_dev_keys,
        (
          (reject_iff _ _).1 (ground (arith, s.jwt_key)),
          (
            (reject_iff _ _).1 (ground (arith, s.push_key)),
            (
              (reject_iff _ _).1 (ground (arith, (unequal _ _).1 s.rp_id, s.some_origin)),
              (
                (reject-production_iff _ _ _).1
                    (map_right (is-ten_iff (byte_length c.apple_team_id)).1 s.team),
                (
                  (check_origins-iff-IsOrigin p _ _).1 s.origins,
                  (
                    (reject_iff _ _).1 (positive_from (15 * minute) _ s.access),
                    (
                      (reject_iff _ _).1 ((at_least_iff _ _).1 s.refresh),
                      ((reject_iff _ _).1 ((at_least_iff _ _).1 s.rate), tt),
                    ),
                  ),
                ),
              ),
            ),
          ),
        ),
      ),
    )
