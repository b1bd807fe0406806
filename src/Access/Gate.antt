-- ===== src/Access/Gate.antt =====
-- access/gate.ts: the pure decision on one inbound message.
use dreamux.Base.{
  ℕ, zero, suc, ◌+◌, String, Bool, true, false, not, ◌&&◌, Option, none, some, [], ◌∷◌, ltb, leb,
  if◌then◌else◌, ◌==◌, includes, exists, keep,
}
use dreamux.Base.Dict.{lookup, insert}
use dreamux.Access.State.{
  DmPolicy, GroupPolicy, PendingPairingKind, PendingPairingEntry, PendingMap, DispatcherAccessState,
  max_pending, pairing_ttl_ms,
}

pub data ChatType : Type 0 where
  p2p group : ChatType
  other : String → ChatType

pub record GateInbound : Type 0 where
  pub chat_type : ChatType
  pub sender_id : String
  pub chat_id : String
  pub is_bot_sender : Bool
  pub trusted_bot : Bool
  pub bot_mentioned : Bool

pub data DropReason : Type 0 where
  dm_disabled dm_not_on_allowlist dm_pairing_slot_cap group_policy_block : DropReason
  group_bot_not_mentioned group_not_on_allowlist group_user_not_on_allowlist : DropReason
  group_pairing_stranger_not_mentioned bot_untrusted unsupported_chat_type internal : DropReason

pub record PairingAction : Type 0 where
  pub kind : PendingPairingKind
  pub token : String
  pub is_resend : Bool
  pub ttl_left_ms : ℕ
  pub prompt_message_id : Option String

pub data GateAction : Type 0 where
  deliver : GateAction
  drop : DropReason → GateAction
  pair : PairingAction → GateAction

pub record GateResult : Type 0 where
  pub action : GateAction
  pub next_state : DispatcherAccessState

-- `expires_at > now`.
abbrev pub is_live : ℕ → PendingPairingEntry → Bool
is_live now e = ltb now e.expires_at

unfoldable pub prune_expired_pending : DispatcherAccessState → ℕ → DispatcherAccessState
prune_expired_pending state now =
    let kept = keep (λ x. is_live now x.1) state.pending in
    let any_removed = exists (λ x. not (is_live now x.1)) state.pending in
    if any_removed then record state { pending = kept } else state

unfoldable pub find_existing_pending_by_key :
    PendingMap → String → ℕ → Option (String × PendingPairingEntry)
find_existing_pending_by_key [] sender_id now = none
find_existing_pending_by_key ((token, entry) ∷ pending) sender_id now =
    if leb entry.expires_at now
    then find_existing_pending_by_key pending sender_id now
    else (if entry.sender_id == sender_id
        then some (token, entry)
        else find_existing_pending_by_key pending sender_id now)

unfoldable pub count_active_pending : PendingMap → ℕ → ℕ
count_active_pending [] now = 0
count_active_pending ((token, entry) ∷ pending) now =
    let rest = count_active_pending pending now in
    if leb entry.expires_at now then rest else suc rest

abbrev pub is_taken : PendingMap → String → Bool
is_taken existing token = elim (lookup token existing) [ none ↦ false | some _ ↦ true ]

-- The `while` loop: `left` of its thousand redraws remain, and `tokens i` is the token at hand.
unfoldable pub draw_token : PendingMap → (ℕ → String) → ℕ → ℕ → String
draw_token existing tokens zero i = tokens i
draw_token existing tokens (suc left) i =
    let redrawn = draw_token existing tokens left (suc i) in
    if is_taken existing (tokens i) then redrawn else tokens i

unfoldable pub generate_unique_pairing_token : PendingMap → (ℕ → String) → String
unfolding draw_token
generate_unique_pairing_token existing tokens = draw_token existing tokens 1000 0

-- The slot that a sender without one gets, if the cap allows.
unfoldable pub new_slot : DispatcherAccessState → GateInbound → ℕ → (ℕ → String) → GateResult
new_slot state input now tokens =
    if leb max_pending (count_active_pending state.pending now)
    then record { action = drop dm_pairing_slot_cap; next_state = state }
    else (let token = generate_unique_pairing_token state.pending tokens in
        record {
          action = pair (record {
            kind = PendingPairingKind.dm;
            token = token;
            is_resend = false;
            ttl_left_ms = pairing_ttl_ms;
            prompt_message_id = none;
          });
          next_state = record state {
            pending =
                insert token
                  (record {
                    sender_id = input.sender_id;
                    chat_id = input.chat_id;
                    created_at = now;
                    expires_at = now + pairing_ttl_ms;
                    prompt_message_id = none;
                  })
                  state.pending;
          };
        })

unfoldable pub dm_pair_path : DispatcherAccessState → GateInbound → ℕ → (ℕ → String) → GateResult
unfolding new_slot
dm_pair_path state input now tokens =
    elim (find_existing_pending_by_key state.pending input.sender_id now) [
      | some (token, entry) ↦ record {
        action = pair (record {
          kind = PendingPairingKind.dm;
          token = token;
          is_resend = true;
          ttl_left_ms = pairing_ttl_ms;
          prompt_message_id = entry.prompt_message_id;
        });
        next_state = record state {
          pending = insert token (record entry { expires_at = now + pairing_ttl_ms }) state.pending;
        };
      }
      | none ↦ new_slot state input now tokens
    ]

-- The `switch` on the DM policy of a direct chat.
unfoldable pub gate_dm :
    DmPolicy → DispatcherAccessState → GateInbound → ℕ → (ℕ → String) → GateResult
gate_dm DmPolicy.disabled s i now tokens = record { action = drop dm_disabled; next_state = s }
gate_dm DmPolicy.all s i now tokens = record { action = deliver; next_state = s }
gate_dm DmPolicy.allowlist s i now tokens =
    if includes i.sender_id s.allow_users
    then record { action = deliver; next_state = s }
    else record { action = drop dm_not_on_allowlist; next_state = s }
gate_dm DmPolicy.pairing s i now tokens =
    if includes i.sender_id s.allow_users
    then record { action = deliver; next_state = s }
    else dm_pair_path s i now tokens
gate_dm (DmPolicy.other _) s i now tokens = record { action = drop internal; next_state = s }

-- The `switch` on the DM policy of an untrusted follow-user group.
unfoldable pub gate_sender :
    DmPolicy → DispatcherAccessState → GateInbound → ℕ → (ℕ → String) → GateResult
gate_sender DmPolicy.disabled s i now tokens = record { action = drop dm_disabled; next_state = s }
gate_sender DmPolicy.all s i now tokens = record { action = deliver; next_state = s }
gate_sender DmPolicy.allowlist s i now tokens =
    if includes i.sender_id s.allow_users
    then record { action = deliver; next_state = s }
    else record { action = drop group_user_not_on_allowlist; next_state = s }
gate_sender DmPolicy.pairing s i now tokens =
    if includes i.sender_id s.allow_users
    then record { action = deliver; next_state = s }
    else (if not i.bot_mentioned
        then record { action = drop group_pairing_stranger_not_mentioned; next_state = s }
        else dm_pair_path s i now tokens)
gate_sender (DmPolicy.other _) s i now tokens = record { action = drop internal; next_state = s }

-- A human in a group, past the mention gate.
unfoldable pub gate_group :
    GroupPolicy → DispatcherAccessState → GateInbound → ℕ → (ℕ → String) → GateResult
unfolding gate_sender
gate_group GroupPolicy.block s i now tokens = record {
  action = drop group_policy_block;
  next_state = s;
}
gate_group (GroupPolicy.other _) s i now tokens = record { action = drop internal; next_state = s }
gate_group GroupPolicy.allowlist s i now tokens =
    if includes i.chat_id s.group_access.allow_chats
    then record { action = deliver; next_state = s }
    else record { action = drop group_not_on_allowlist; next_state = s }
gate_group GroupPolicy.follow_user s i now tokens =
    if includes i.chat_id s.group_access.allow_chats
    then record { action = deliver; next_state = s }
    else gate_sender s.dm_policy s i now tokens

-- The gate on a pruned state.
unfoldable pub gate_working :
    ChatType → DispatcherAccessState → GateInbound → ℕ → (ℕ → String) → GateResult
unfolding gate_dm gate_group
gate_working ChatType.p2p s i now tokens =
    if i.is_bot_sender
    then record { action = drop bot_untrusted; next_state = s }
    else gate_dm s.dm_policy s i now tokens
gate_working ChatType.group s i now tokens =
    if i.is_bot_sender
    then (if not i.trusted_bot
        then record { action = drop bot_untrusted; next_state = s }
        else (if not i.bot_mentioned
            then record { action = drop group_bot_not_mentioned; next_state = s }
            else record { action = deliver; next_state = s }))
    else (if s.group_access.require_mention && not i.bot_mentioned
        then record { action = drop group_bot_not_mentioned; next_state = s }
        else gate_group s.group_access.policy s i now tokens)
gate_working (ChatType.other _) s i now tokens = record {
  action = drop unsupported_chat_type;
  next_state = s;
}

unfoldable pub dreamux_feishu_gate :
    DispatcherAccessState → GateInbound → ℕ → (ℕ → String) → GateResult
unfolding gate_working
dreamux_feishu_gate state input now tokens =
    gate_working input.chat_type (prune_expired_pending state now) input now tokens
