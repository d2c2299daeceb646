-- ===== src/Store/Schema.antt =====
-- The tables of server/migrations/ that the collaboration store and the push queue read and write
-- (Auth.antt has those of the authentication store), as lists of rows in the order of insertion. A
-- digest or a token is a number. Columns that no query reads are left out.
mod Auth
pub use Auth.*
use along.Prelude.{ℕ, Bool, Option, List, [], String}
use along.Domain.Models.{SessionState, FocusSession, SessionNote}

-- pairs
pub record PairRow : Type 0 where
  pub id : ℕ
  pub created_at : ℕ
  pub dissolved_at : Option ℕ

-- pair_members
pub record PairMemberRow : Type 0 where
  pub pair_id : ℕ
  pub account_id : ℕ

-- pair_invites
pub record InviteRow : Type 0 where
  pub id : ℕ
  pub created_by : ℕ
  pub token_hash : ℕ
  pub expires_at : ℕ
  pub accepted_by : Option ℕ
  pub accepted_at : Option ℕ
  pub revoked_at : Option ℕ

-- focus_sessions
pub record SessionRow : Type 0 where
  pub id : ℕ
  pub pair_id : ℕ
  pub started_by : ℕ
  pub state : SessionState
  pub pause_origin : Option SessionState
  pub duration_seconds : ℕ
  pub started_at : ℕ
  pub ends_at : ℕ
  pub paused_at : Option ℕ
  pub completed_at : Option ℕ
  pub cancelled_at : Option ℕ
  pub version : ℕ
  pub offline_origin : Bool
  pub updated_at : ℕ

-- session_members
pub record SessionMemberRow : Type 0 where
  pub session_id : ℕ
  pub account_id : ℕ
  pub joined_at : ℕ

-- session_notes
pub record NoteRow : Type 0 where
  pub id : ℕ
  pub session_id : ℕ
  pub account_id : ℕ
  pub body : List ℕ
  pub created_at : ℕ

-- reactions; the kind is always 'cheer'
pub record ReactionRow : Type 0 where
  pub id : ℕ
  pub session_id : ℕ
  pub account_id : ℕ
  pub created_at : ℕ

-- CheerResponse of store/collaboration.go
pub record CheerResponse : Type 0 where
  pub id : ℕ
  pub created_at : ℕ

-- The JSON documents that are stored: commandResponse, NoteResponse and CheerResponse.
pub data Response : Type 0 where
  session_response : FocusSession → Response
  note_response : SessionNote → Response
  cheer_response : CheerResponse → Response

-- idempotency_keys
pub record IdempotencyRow : Type 0 where
  pub account_id : ℕ
  pub key : ℕ
  pub operation : String
  pub response : Response
  pub expires_at : ℕ

-- The payload of a pair event.
pub data Payload : Type 0 where
  session_payload : FocusSession → Payload
  note_payload : SessionNote → Payload
  cheer_payload : CheerResponse → Payload
  pair_payload : ℕ → List ℕ → Payload

-- pair_events
pub record EventRow : Type 0 where
  pub cursor : ℕ
  pub pair_id : ℕ
  pub event_type : String
  pub entity_id : Option ℕ
  pub actor_id : Option ℕ
  pub payload : Payload
  pub created_at : ℕ

-- The payload of pg_notify, and Hint of server/internal/realtime/hub.go.
pub record Hint : Type 0 where
  pub pair_id : ℕ
  pub cursor : ℕ

-- push_devices
pub record PushDeviceRow : Type 0 where
  pub id : ℕ
  pub account_id : ℕ
  pub device_install_id : ℕ
  pub token_hash : ℕ
  pub token_ciphertext : List ℕ
  pub environment : String
  pub topic : String
  pub created_at : ℕ
  pub revoked_at : Option ℕ

-- The text of a notification.
pub record Alert : Type 0 where
  pub title : String
  pub body : String
  pub deep_link : String

-- notification_jobs
pub record JobRow : Type 0 where
  pub id : ℕ
  pub pair_id : ℕ
  pub recipient_account_id : ℕ
  pub push_device_id : ℕ
  pub event_cursor : ℕ
  pub kind : String
  pub payload : Alert
  pub attempts : ℕ
  pub created_at : ℕ
  pub available_at : ℕ
  pub locked_until : Option ℕ
  pub sent_at : Option ℕ
  pub failed_at : Option ℕ
  pub last_error : Option String

-- `next_cursor` is the sequence of the bigserial column, and `notified` what pg_notify was given.
pub record Db : Type 0 where
  pub accounts : List AccountRow
  pub pairs : List PairRow
  pub pair_members : List PairMemberRow
  pub pair_invites : List InviteRow
  pub focus_sessions : List SessionRow
  pub session_members : List SessionMemberRow
  pub session_notes : List NoteRow
  pub reactions : List ReactionRow
  pub idempotency_keys : List IdempotencyRow
  pub pair_events : List EventRow
  pub next_cursor : ℕ
  pub notified : List Hint
  pub push_devices : List PushDeviceRow
  pub notification_jobs : List JobRow
  pub webauthn_credentials : List CredentialRow
  pub auth_challenges : List ChallengeRow
  pub recovery_codes : List RecoveryCodeRow
  pub device_installs : List InstallRow
  pub auth_sessions : List AuthSessionRow
  pub refresh_tokens : List RefreshRow

abbrev pub empty_db : Db
empty_db = record {
  accounts = [];
  pairs = [];
  pair_members = [];
  pair_invites = [];
  focus_sessions = [];
  session_members = [];
  session_notes = [];
  reactions = [];
  idempotency_keys = [];
  pair_events = [];
  next_cursor = 1;
  notified = [];
  push_devices = [];
  notification_jobs = [];
  webauthn_credentials = [];
  auth_challenges = [];
  recovery_codes = [];
  device_installs = [];
  auth_sessions = [];
  refresh_tokens = [];
}

-- What a call takes from outside: the server's clock (`s.now()`), the database's clock
-- (`clock_timestamp()`), read once, and the UUIDs that it draws.
pub record Env : Type 0 where
  pub now : ℕ
  pub clock : ℕ
  pub uuid : ℕ → ℕ
