-- ===== src/Access/Decision.antt =====
-- Whom the gate of access/gate.ts admits, and what it leaves alone.
use dreamux.Base.{ℕ, String, true, false, ◌≡◌, ◌↔◌, ◌⊎◌, arith, includes}
use dreamux.Access.State.{DmPolicy, GroupPolicy, DispatcherAccessState}
use dreamux.Access.Gate.{
  ChatType, GateInbound, deliver, prune_expired_pending, dm_pair_path, gate_working,
  dreamux_feishu_gate,
}

-- The sender's own standing.
abbrev pub SenderIsAdmitted : DispatcherAccessState → GateInbound → Type 0
SenderIsAdmitted s i =
    (s.dm_policy ≡ DmPolicy.all)
    ⊎ (((s.dm_policy ≡ DmPolicy.allowlist) ⊎ (s.dm_policy ≡ DmPolicy.pairing))
        × (includes i.sender_id s.allow_users ≡ true))

-- A group that the operator trusts admits every human; another one, if it follows its users, those
-- that a direct chat would admit.
abbrev pub HumanIsAdmitted : DispatcherAccessState → GateInbound → Type 0
HumanIsAdmitted s i =
    (((s.group_access.policy ≡ GroupPolicy.allowlist)
        ⊎ (s.group_access.policy ≡ GroupPolicy.follow_user))
      × (includes i.chat_id s.group_access.allow_chats ≡ true))
    ⊎ ((s.group_access.policy ≡ GroupPolicy.follow_user) × SenderIsAdmitted s i)

abbrev pub IsAdmitted : DispatcherAccessState → GateInbound → Type 0
IsAdmitted s i =
    ((i.chat_type ≡ ChatType.p2p) × (i.is_bot_sender ≡ false) × SenderIsAdmitted s i)
    ⊎ ((i.chat_type ≡ ChatType.group)
        × (i.is_bot_sender ≡ true)
        × (i.trusted_bot ≡ true)
        × (i.bot_mentioned ≡ true))
    ⊎ ((i.chat_type ≡ ChatType.group)
        × (i.is_bot_sender ≡ false)
        × ((s.group_access.require_mention ≡ false) ⊎ (i.bot_mentioned ≡ true))
        × HumanIsAdmitted s i)

-- All of a state but the pending requests.
pub record SamePolicy (s t : DispatcherAccessState) : Type 0 where
  pub dm_policy : t.dm_policy ≡ s.dm_policy
  pub group_access : t.group_access ≡ s.group_access
  pub allow_users : t.allow_users ≡ s.allow_users

pub prune-SamePolicy :
    (s : DispatcherAccessState) (now : ℕ) → SamePolicy s (prune_expired_pending s now)
unfolding prune_expired_pending
prune-SamePolicy s now = ground arith

dm_pair_path-ne-deliver :
    (s : DispatcherAccessState) (i : GateInbound) (now : ℕ) (tokens : ℕ → String)
    → (dm_pair_path s i now tokens).action ≡ deliver
    → ⊥
unfolding dm_pair_path
dm_pair_path-ne-deliver s i now tokens h = ground arith

dm_pair_path-SamePolicy :
    (s : DispatcherAccessState) (i : GateInbound) (now : ℕ) (tokens : ℕ → String)
    → SamePolicy s (dm_pair_path s i now tokens).next_state
unfolding dm_pair_path
dm_pair_path-SamePolicy s i now tokens = ground arith

module _ (s : DispatcherAccessState) (i : GateInbound) (now : ℕ) (tokens : ℕ → String) where
  gate_working-SamePolicy : SamePolicy s (gate_working i.chat_type s i now tokens).next_state
  unfolding gate_working
  gate_working-SamePolicy = ground (arith, dm_pair_path-SamePolicy s i now tokens)

  gate_working-IsAdmitted :
      (gate_working i.chat_type s i now tokens).action ≡ deliver → IsAdmitted s i
  unfolding gate_working
  gate_working-IsAdmitted h = ground (arith, dm_pair_path-ne-deliver s i now tokens)

  IsAdmitted-gate_working :
      IsAdmitted s i → (gate_working i.chat_type s i now tokens).action ≡ deliver
  unfolding gate_working
  IsAdmitted-gate_working h = ground arith

module _ (s : DispatcherAccessState) (i : GateInbound) (now : ℕ) (tokens : ℕ → String) where
  -- The gate delivers a message exactly when the stated policy admits it: a human's direct message
  -- by the sender's standing; in a group, a trusted bot that mentions this one, or a human past the
  -- mention gate in a trusted chat or, where the group follows its users, by the sender's standing.
  -- Neither the pending requests nor the clock nor the random tokens have a say.
  pub gate-deliver_iff : ((dreamux_feishu_gate s i now tokens).action ≡ deliver) ↔ IsAdmitted s i
  unfolding dreamux_feishu_gate
  gate-deliver_iff = (
    λ h. ground (
      arith,
      prune-SamePolicy s now,
      gate_working-IsAdmitted (prune_expired_pending s now) i now tokens,
    ),
    λ h. ground (
      arith,
      prune-SamePolicy s now,
      IsAdmitted-gate_working (prune_expired_pending s now) i now tokens,
    ),
  )

  -- A decision changes no allowlist and no policy: only requests for access come and go.
  pub gate-SamePolicy : SamePolicy s (dreamux_feishu_gate s i now tokens).next_state
  unfolding dreamux_feishu_gate
  gate-SamePolicy = ground (
    arith,
    prune-SamePolicy s now,
    gate_working-SamePolicy (prune_expired_pending s now) i now tokens,
  )
