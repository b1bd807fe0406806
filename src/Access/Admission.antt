-- ===== src/Access/Admission.antt =====
-- Who gets a direct message through to the agent, over a whole history of the access state.
-- (access/gate.ts, access/index.ts)
use dreamux.Base.{
  ℕ, ◌≡◌, refl, ◌↔◌, ◌⊎◌, inl, inr, String, true, false, List, [], ◌∷◌, arith, includes, ◌∙◌,
}
use dreamux.Access.State.{DmPolicy, DispatcherAccessState, default_dispatcher_access_state}
use dreamux.Access.Gate.{ChatType, GateInbound, deliver, dreamux_feishu_gate}
use dreamux.Access.Commit.{TokenText, approve_pairing_by_token}
use dreamux.Access.Decision.{IsAdmitted, gate-deliver_iff}
use dreamux.Access.History.{
  Event, inbound, referenced, prompted, approves, step, run, WasApproved, run-allow_users_iff,
  commit-SamePolicy, refresh-SamePolicy, record-SamePolicy,
}

approve-dm_policy :
    (text : TokenText) (s : DispatcherAccessState) (token : String) (now : ℕ)
    → (approve_pairing_by_token text s token now).0.dm_policy ≡ s.dm_policy
unfolding approve_pairing_by_token
approve-dm_policy text s token now = ground arith

module _ (text : TokenText) where
  step-dm_policy :
      (s : DispatcherAccessState) (e : ℕ × Event) → (step text s e).dm_policy ≡ s.dm_policy
  unfolding step
  step-dm_policy s (now, inbound i tokens) = (commit-SamePolicy s i now tokens).dm_policy
  step-dm_policy s (now, referenced a) = (refresh-SamePolicy s a now).dm_policy
  step-dm_policy s (now, prompted i a message_id) =
      (record-SamePolicy s i a message_id now).dm_policy
  step-dm_policy s (now, approves token) = approve-dm_policy text s token now

  run-dm_policy :
      (s : DispatcherAccessState) (es : List (ℕ × Event)) → (run text s es).dm_policy ≡ s.dm_policy
  unfolding run
  run-dm_policy s [] = refl
  run-dm_policy s (e ∷ es) = run-dm_policy (step text s e) es ∙ step-dm_policy s e

  -- From the default state, after any history, a human's direct message is delivered exactly when
  -- an approval along that history named its sender.
  pub direct_message_needs_approval :
      (es : List (ℕ × Event)) (i : GateInbound) (now : ℕ) (tokens : ℕ → String)
      → i.chat_type ≡ ChatType.p2p
      → i.is_bot_sender ≡ false
      → ((dreamux_feishu_gate (run text default_dispatcher_access_state es) i now tokens).action
          ≡ deliver)
        ↔ WasApproved text i.sender_id default_dispatcher_access_state es
  unfolding default_dispatcher_access_state
  direct_message_needs_approval es i now tokens p b = (
    λ h. on_list (
        (run-allow_users_iff text i.sender_id default_dispatcher_access_state es).0
          (listed ((gate-deliver_iff s i now tokens).0 h))),
    λ w. (gate-deliver_iff s i now tokens).1 (
        inl (
          p,
          b,
          inr (
            inr policy,
            (run-allow_users_iff text i.sender_id default_dispatcher_access_state es).1 (inr w),
          ),
        )),
  )
    where
      s : DispatcherAccessState
      s = run text default_dispatcher_access_state es

      policy : s.dm_policy ≡ DmPolicy.pairing
      policy = run-dm_policy default_dispatcher_access_state es

      listed : IsAdmitted s i → includes i.sender_id s.allow_users ≡ true
      listed h = ground (arith, policy)

      on_list :
          (false ≡ true) ⊎ WasApproved text i.sender_id default_dispatcher_access_state es
          → WasApproved text i.sender_id default_dispatcher_access_state es
      on_list (inl e) = cc
      on_list (inr w) = w
