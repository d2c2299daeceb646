-- ===== src/Store/Schema/Auth.antt =====
-- The tables of server/migrations/ that the authentication store keeps: rows in the order of
-- insertion. A digest and a WebAuthn user handle are numbers, a credential's id is its bytes, and
-- a stored JSON document is a text that is not read here.
use along.Prelude.{ℕ, Bool, true, false, Option, List, String}

pub data AccountStatus : Type 0 where
  pending active deleted : AccountStatus

abbrev pub is_active : AccountStatus → Bool
is_active active = true
is_active _ = false

-- accounts
pub record AccountRow : Type 0 where
  pub id : ℕ
  pub webauthn_user_handle : ℕ
  pub display_name : String
  pub recovery_handle : String
  pub status : AccountStatus
  pub created_at : ℕ

-- webauthn_credentials
pub record CredentialRow : Type 0 where
  pub credential_id : List ℕ
  pub account_id : ℕ
  pub credential : String
  pub label : String
  pub created_at : ℕ
  pub last_used_at : Option ℕ
  pub revoked_at : Option ℕ

-- auth_challenges
pub record ChallengeRow : Type 0 where
  pub id : ℕ
  pub account_id : Option ℕ
  pub purpose : String
  pub session_data : String
  pub expires_at : ℕ
  pub consumed_at : Option ℕ

-- recovery_codes
pub record RecoveryCodeRow : Type 0 where
  pub account_id : ℕ
  pub position : ℕ
  pub code_hash : String
  pub used_at : Option ℕ

-- device_installs, with the primary key (id, account_id) of the second migration
pub record InstallRow : Type 0 where
  pub id : ℕ
  pub account_id : ℕ
  pub platform : String
  pub name : String
  pub created_at : ℕ
  pub last_seen_at : ℕ
  pub revoked_at : Option ℕ

-- auth_sessions
pub record AuthSessionRow : Type 0 where
  pub id : ℕ
  pub account_id : ℕ
  pub device_install_id : ℕ
  pub credential_id : Option (List ℕ)
  pub created_at : ℕ
  pub expires_at : ℕ
  pub last_seen_at : ℕ
  pub revoked_at : Option ℕ
  pub revoke_reason : Option String

-- refresh_tokens
pub record RefreshRow : Type 0 where
  pub id : ℕ
  pub family_id : ℕ
  pub auth_session_id : ℕ
  pub parent_id : Option ℕ
  pub token_hash : ℕ
  pub expires_at : ℕ
  pub consumed_at : Option ℕ
  pub replacement_id : Option ℕ
  pub revoked_at : Option ℕ
