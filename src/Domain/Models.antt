-- ===== src/Domain/Models.antt =====
-- server/internal/domain/models.go. A UUID is a number, `uuid.Nil` is 0, and a time counts the
-- microseconds since the epoch, which is the resolution of the database.
use along.Prelude.{ℕ, ◌*◌, Bool, ◌||◌, Option, List, String, ◌==◌}

-- SessionState; `opened` stands for "open", which is a word of the language.
pub data SessionState : Type 0 where
  opened together paused completed cancelled expired : SessionState

abbrev pub state_number : SessionState → ℕ
state_number opened = 0
state_number together = 1
state_number paused = 2
state_number completed = 3
state_number cancelled = 4
state_number expired = 5

-- Equality of two states, which the source compares as strings.
abbrev pub state_eq : SessionState → SessionState → Bool
state_eq a b = state_number a == state_number b

-- SessionState.Terminal
unfoldable pub terminal : SessionState → Bool
terminal s = state_eq s completed || (state_eq s cancelled || state_eq s expired)

pub record Participant : Type 0 where
  pub account_id : ℕ
  pub display_name : String
  pub joined_at : ℕ

pub record SessionNote : Type 0 where
  pub id : ℕ
  pub account_id : ℕ
  pub display_name : String
  pub body : List ℕ
  pub created_at : ℕ

pub record FocusSession : Type 0 where
  pub id : ℕ
  pub pair_id : ℕ
  pub started_by : ℕ
  pub state : SessionState
  pub pause_origin : Option SessionState
  pub duration_seconds : ℕ
  pub started_at : ℕ
  pub ends_at : ℕ
  pub paused_at : Option ℕ
  pub completed_at : Option ℕ
  pub cancelled_at : Option ℕ
  pub version : ℕ
  pub offline_origin : Bool
  pub participants : List Participant
  pub notes : List SessionNote

-- Account; `Status` is the row's.
pub record Account : Type 0 where
  pub id : ℕ
  pub display_name : String
  pub recovery_handle : String
  pub webauthn_user_id : ℕ
  pub status : String
  pub created_at : ℕ
  pub pair_id : Option ℕ
  pub partner_name : String
  pub credential_count : ℕ
  pub installation_id : Option ℕ

pub record DeviceInfo : Type 0 where
  pub id : ℕ
  pub platform : String
  pub name : String

-- The fields of AuthIdentity that the store and its callers read.
pub record AuthIdentity : Type 0 where
  pub account_id : ℕ
  pub session_id : ℕ
  pub installation_id : ℕ
  pub pair_id : Option ℕ
  pub display_name : String

pub record PairSummary : Type 0 where
  pub id : ℕ
  pub partner_id : ℕ
  pub partner_name : String
  pub created_at : ℕ

abbrev pub second : ℕ
second = 1000000

abbrev pub minute : ℕ
minute = 60 * second

abbrev pub hour : ℕ
hour = 60 * minute
