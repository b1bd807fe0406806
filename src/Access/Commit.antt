-- ===== src/Access/Commit.antt =====
-- access/index.ts: what FeishuAccess commits around the gate. Each function is the change that its
-- method hands to `store.update`, with the clock that the method reads inside it.
use dreamux.Base.{
  ℕ, ◌+◌, ◌-◌, String, Bool, Option, none, some, [], ◌∷◌, ◌++◌, leb, if◌then◌else◌, ◌==◌, includes,
}
use dreamux.Base.Dict.{lookup, insert, remove}
use dreamux.Access.State.{
  PendingPairingKind, PendingPairingEntry, PendingMap, DispatcherAccessState, pairing_ttl_ms,
}
use dreamux.Access.Gate.{
  GateInbound, GateAction, GateResult, PairingAction, deliver, drop, pair, prune_expired_pending,
  dreamux_feishu_gate,
}

-- `a ?? b`.
abbrev pub or_else : Option String → Option String → Option String
or_else none b = b
or_else (some a) b = some a

-- A `pair` decision is committed only after its message has been sent.
abbrev committed : DispatcherAccessState → GateResult → GateAction → DispatcherAccessState
committed current result (pair _) = current
committed current result deliver = result.next_state
committed current result (drop _) = result.next_state

unfoldable pub gate :
    DispatcherAccessState → GateInbound → ℕ → (ℕ → String) → DispatcherAccessState × GateAction
gate current inbound now tokens =
    let result = dreamux_feishu_gate current inbound now tokens in
    (committed current result result.action, result.action)

unfoldable pub refresh_pairing : DispatcherAccessState → PairingAction → ℕ → DispatcherAccessState
refresh_pairing current action now = elim (lookup action.token current.pending) [
  | none ↦ current
  | some existing ↦ record current {
    pending =
        insert action.token
          (record existing {
            expires_at = now + pairing_ttl_ms;
            prompt_message_id = or_else existing.prompt_message_id action.prompt_message_id;
          })
          current.pending;
  }
]

-- The first entry of the sender, live or not.
unfoldable pub find_by_sender : PendingMap → String → Option (String × PendingPairingEntry)
find_by_sender [] sender_id = none
find_by_sender ((token, entry) ∷ pending) sender_id =
    if entry.sender_id == sender_id then some (token, entry) else find_by_sender pending sender_id

-- The operator approved while the card was being sent.
abbrev pub approved_meanwhile : DispatcherAccessState → GateInbound → PendingPairingKind → Bool
approved_meanwhile s inbound PendingPairingKind.dm = includes inbound.sender_id s.allow_users
approved_meanwhile s inbound PendingPairingKind.group =
    includes inbound.chat_id s.group_access.allow_chats

-- The rest of the change, over the pruned state.
unfoldable pub record_pruned :
    DispatcherAccessState → GateInbound → PairingAction → Option String → ℕ → DispatcherAccessState
record_pruned pruned inbound action message_id now =
    elim (find_by_sender pruned.pending inbound.sender_id) [
      | some (token, existing) ↦
          if action.is_resend
          then record pruned {
            pending =
                insert token
                  (record existing {
                    expires_at = now + pairing_ttl_ms;
                    prompt_message_id = or_else existing.prompt_message_id message_id;
                  })
                  pruned.pending;
          }
          else pruned
      | none ↦ record pruned {
        pending =
            insert action.token
              (record {
                sender_id = inbound.sender_id;
                chat_id = inbound.chat_id;
                created_at = now;
                expires_at = now + pairing_ttl_ms;
                prompt_message_id = message_id;
              })
              pruned.pending;
      }
    ]

unfoldable pub record_pairing_prompt :
    DispatcherAccessState → GateInbound → PairingAction → Option String → ℕ → DispatcherAccessState
unfolding record_pruned
record_pairing_prompt current inbound action message_id now =
    if approved_meanwhile current inbound action.kind
    then current
    else record_pruned (prune_expired_pending current now) inbound action message_id now

pub data PairingApproval : Type 0 where
  malformed not_found : PairingApproval
  approved : (duplicate : Bool) (ttl_left_ms : ℕ) (sender_id chat_id : String) → PairingApproval

-- What `/^[0-9a-fA-F]{6}$/` and `toLowerCase` answer for a token is the runtime's own.
pub record TokenText : Type 0 where
  pub is_pairing_token : String → Bool
  pub to_lower_case : String → String

-- The change inside the update, by the lowered token.
unfoldable pub approve_lowered :
    DispatcherAccessState → String → ℕ → DispatcherAccessState × PairingApproval
approve_lowered state token now = elim (lookup token state.pending) [
  | none ↦ (state, not_found)
  | some entry ↦
      if leb entry.expires_at now
      then (state, not_found)
      else (let duplicate = includes entry.sender_id state.allow_users in
          (
            record state {
              pending = remove token state.pending;
              allow_users =
                  if duplicate
                  then state.allow_users
                  else state.allow_users ++ entry.sender_id ∷ [];
            },
            approved duplicate (entry.expires_at - now) entry.sender_id entry.chat_id,
          ))
]

unfoldable pub approve_pairing_by_token :
    TokenText → DispatcherAccessState → String → ℕ → DispatcherAccessState × PairingApproval
unfolding approve_lowered
approve_pairing_by_token text state token now =
    if text.is_pairing_token token
    then approve_lowered state (text.to_lower_case token) now
    else (state, malformed)
