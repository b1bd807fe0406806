-- ===== src/Access/State.antt =====
-- access/state.ts: the persisted access state and its default.
use dreamux.Base.{ℕ, ◌*◌, String, Bool, true, Option, List, []}

abbrev pub max_pending : ℕ
max_pending = 10

abbrev pub pairing_ttl_ms : ℕ
pairing_ttl_ms = 60 * 60 * 1000

-- The loader accepts any text as a policy: `other` is what the file holds beside the known ones.
pub data DmPolicy : Type 0 where
  all allowlist pairing disabled : DmPolicy
  other : String → DmPolicy

pub data GroupPolicy : Type 0 where
  block allowlist follow_user : GroupPolicy
  other : String → GroupPolicy

pub data PendingPairingKind : Type 0 where
  dm group : PendingPairingKind

pub record PendingPairingEntry : Type 0 where
  pub sender_id : String
  pub chat_id : String
  pub created_at : ℕ
  pub expires_at : ℕ
  pub prompt_message_id : Option String

pub record GroupAccess : Type 0 where
  pub policy : GroupPolicy
  pub allow_chats : List String
  pub require_mention : Bool

abbrev pub PendingMap : Type 0
PendingMap = List (String × PendingPairingEntry)

pub record DispatcherAccessState : Type 0 where
  pub dm_policy : DmPolicy
  pub group_access : GroupAccess
  pub allow_users : List String
  pub pending : PendingMap

unfoldable pub default_dispatcher_access_state : DispatcherAccessState
default_dispatcher_access_state = record {
  dm_policy = DmPolicy.pairing;
  group_access = record {
    policy = GroupPolicy.follow_user;
    allow_chats = [];
    require_mention = true;
  };
  allow_users = [];
  pending = [];
}
