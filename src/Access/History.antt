-- ===== src/Access/History.antt =====
-- Everything that changes the access state of a session, in any order: gate decisions, prompts that
-- went out meanwhile and approvals. (access/index.ts)
use dreamux.Base.{
  ℕ, ◌≡◌, ◌↔◌, ◌⊎◌, inl, inr, String, Bool, true, false, Option, none, some, List, [], ◌∷◌, arith,
  includes, includes-append, Option-cases, Bool-cases,
}
use dreamux.Base.Dict.{lookup, lookup-remove}
use dreamux.Access.State.{DispatcherAccessState}
use dreamux.Access.Gate.{
  GateInbound, PairingAction, GateAction, pair, is_live, prune_expired_pending, dm_pair_path,
  dreamux_feishu_gate, gate_working,
}
use dreamux.Access.Commit.{
  TokenText, PairingApproval, malformed, not_found, approved, gate, refresh_pairing,
  record_pairing_prompt, find_by_sender, approve_lowered, approve_pairing_by_token, record_pruned,
}
use dreamux.Access.Slots.{
  IsDistinct, keep-IsDistinct, remove-IsDistinct, insert-IsDistinct, lookup_unique,
  find_by_sender_unique, find_by_sender-remove-none,
}
use dreamux.Access.Decision.{SamePolicy, prune-SamePolicy, gate-SamePolicy}

pub data Event : Type 0 where
  inbound : GateInbound → (ℕ → String) → Event
  referenced : PairingAction → Event
  prompted : GateInbound → PairingAction → Option String → Event
  approves : String → Event

unfoldable pub step : TokenText → DispatcherAccessState → ℕ × Event → DispatcherAccessState
step text s (now, inbound i tokens) = (gate s i now tokens).0
step text s (now, referenced a) = refresh_pairing s a now
step text s (now, prompted i a message_id) = record_pairing_prompt s i a message_id now
step text s (now, approves token) = (approve_pairing_by_token text s token now).0

unfoldable pub run : TokenText → DispatcherAccessState → List (ℕ × Event) → DispatcherAccessState
run text s [] = s
run text s (e ∷ es) = run text (step text s e) es

-- The sender that an approval admits.
abbrev pub admitted_sender : PairingApproval → Option String
admitted_sender (approved duplicate ttl_left_ms sender_id chat_id) = some sender_id
admitted_sender malformed = none
admitted_sender not_found = none

-- The approval of `token` names the sender `u`.
abbrev pub Names : TokenText → DispatcherAccessState → ℕ → String → String → Type 0
Names text s now token u = admitted_sender (approve_pairing_by_token text s token now).1 ≡ some u

-- Along the run some approval named `u`.
pub data WasApproved (text : TokenText) (u : String)
    : DispatcherAccessState → List (ℕ × Event) → Type 0 where
  now_approved :
      {s : DispatcherAccessState} (now : ℕ) (token : String) {es : List (ℕ × Event)}
      → Names text s now token u
      → WasApproved text u s ((now, approves token) ∷ es)
  later :
      {s : DispatcherAccessState} {e : ℕ × Event} {es : List (ℕ × Event)}
      → WasApproved text u (step text s e) es
      → WasApproved text u s (e ∷ es)

pub commit-SamePolicy :
    (s : DispatcherAccessState) (i : GateInbound) (now : ℕ) (tokens : ℕ → String)
    → SamePolicy s (gate s i now tokens).0
unfolding gate
commit-SamePolicy s i now tokens = ground (arith, gate-SamePolicy s i now tokens)

pub refresh-SamePolicy :
    (s : DispatcherAccessState) (a : PairingAction) (now : ℕ)
    → SamePolicy s (refresh_pairing s a now)
unfolding refresh_pairing
refresh-SamePolicy s a now = ground arith

pub record-SamePolicy :
    (s : DispatcherAccessState) (i : GateInbound) (a : PairingAction) (message_id : Option String)
    (now : ℕ)
    → SamePolicy s (record_pairing_prompt s i a message_id now)
unfolding record_pairing_prompt
record-SamePolicy s i a message_id now = ground (arith, prune-SamePolicy s now)

-- What an approval does to the allowlist.
approve-allow_users :
    (text : TokenText) (s : DispatcherAccessState) (token u : String) (now : ℕ)
    → (includes u (approve_pairing_by_token text s token now).0.allow_users ≡ true)
      ↔ ((includes u s.allow_users ≡ true) ⊎ Names text s now token u)
unfolding approve_pairing_by_token
approve-allow_users text s token u now =
    elim (Option-cases (lookup (text.to_lower_case token) s.pending)) [
      | inl e ↦ rw (e, approve_lowered) (ground arith)
      | inr (entry, e) ↦
          rw (e, approve_lowered)
            (ground (arith, includes-append u s.allow_users (entry.sender_id ∷ [])))
    ]

abbrev is_pair : GateAction → Bool
is_pair (pair _) = true
is_pair _ = false

gate_working-kept :
    (s : DispatcherAccessState) (i : GateInbound) (now : ℕ) (tokens : ℕ → String)
    → is_pair (gate_working i.chat_type s i now tokens).action ≡ false
    → (gate_working i.chat_type s i now tokens).next_state ≡ s
unfolding gate_working dm_pair_path
gate_working-kept s i now tokens h = ground arith

-- The slots after each change.
prune-IsDistinct :
    (s : DispatcherAccessState) (now : ℕ)
    → IsDistinct s.pending
    → IsDistinct (prune_expired_pending s now).pending
unfolding prune_expired_pending
prune-IsDistinct s now h = ground (arith, keep-IsDistinct (λ x. is_live now x.1) s.pending h)

gate-IsDistinct :
    (s : DispatcherAccessState) (i : GateInbound) (now : ℕ) (tokens : ℕ → String)
    → IsDistinct s.pending
    → IsDistinct (gate s i now tokens).0.pending
unfolding gate dreamux_feishu_gate
gate-IsDistinct s i now tokens h =
    ground (
      arith,
      prune-IsDistinct s now h,
      gate_working-kept (prune_expired_pending s now) i now tokens,
    )

refresh-IsDistinct :
    (s : DispatcherAccessState) (a : PairingAction) (now : ℕ)
    → IsDistinct s.pending
    → IsDistinct (refresh_pairing s a now).pending
unfolding refresh_pairing
refresh-IsDistinct s a now h = elim (Option-cases (lookup a.token s.pending)) [
  | inl e ↦ rw (e, refresh_pairing) h
  | inr (v, e) ↦
      rw (e, refresh_pairing)
        (insert-IsDistinct a.token _ s.pending h (lookup_unique a.token v s.pending h e))
]

record_pruned-IsDistinct :
    (s : DispatcherAccessState) (i : GateInbound) (a : PairingAction) (message_id : Option String)
    (now : ℕ)
    → IsDistinct s.pending
    → IsDistinct (record_pruned s i a message_id now).pending
unfolding record_pruned
record_pruned-IsDistinct s i a message_id now h =
    elim (Option-cases (find_by_sender s.pending i.sender_id)) [
      | inl e ↦
          rw (e, record_pruned)
            (insert-IsDistinct a.token _ s.pending h
              (find_by_sender-remove-none a.token i.sender_id s.pending e))
      | inr ((token, v), e) ↦
          rw (e, record_pruned)
            (let (_, found) = find_by_sender_unique i.sender_id token v s.pending h e in
              elim (Bool-cases a.is_resend) [
                | inl p ↦ rw p (
                    insert-IsDistinct token _ s.pending h (lookup_unique token v s.pending h found))
                | inr p ↦ rw p h
              ])
    ]

record-IsDistinct :
    (s : DispatcherAccessState) (i : GateInbound) (a : PairingAction) (message_id : Option String)
    (now : ℕ)
    → IsDistinct s.pending
    → IsDistinct (record_pairing_prompt s i a message_id now).pending
unfolding record_pairing_prompt
record-IsDistinct s i a message_id now h = ground (
  arith,
  prune-IsDistinct s now h,
  record_pruned-IsDistinct (prune_expired_pending s now) i a message_id now,
)

approve-IsDistinct :
    (text : TokenText) (s : DispatcherAccessState) (token : String) (now : ℕ)
    → IsDistinct s.pending
    → IsDistinct (approve_pairing_by_token text s token now).0.pending
unfolding approve_pairing_by_token
approve-IsDistinct text s token now h =
    ground (arith, remove-IsDistinct (text.to_lower_case token) s.pending h)

approve_lowered_once :
    (s : DispatcherAccessState) (token u : String) (now again : ℕ)
    → admitted_sender (approve_lowered s token now).1 ≡ some u
    → let t = (approve_lowered s token now).0 in
      (includes u t.allow_users ≡ true) × (approve_lowered t token again ≡ (t, not_found))
unfolding approve_lowered
approve_lowered_once s token u now again h = elim (Option-cases (lookup token s.pending)) [
  | inl e ↦ absurd (ground arith)
  | inr (entry, e) ↦ ground (
    arith,
    lookup-remove token token s.pending,
    includes-append entry.sender_id s.allow_users (entry.sender_id ∷ []),
  )
]

module _ (text : TokenText) where
  step-IsDistinct :
      (s : DispatcherAccessState) (e : ℕ × Event)
      → IsDistinct s.pending
      → IsDistinct (step text s e).pending
  unfolding step
  step-IsDistinct s (now, inbound i tokens) h = gate-IsDistinct s i now tokens h
  step-IsDistinct s (now, referenced a) h = refresh-IsDistinct s a now h
  step-IsDistinct s (now, prompted i a message_id) h = record-IsDistinct s i a message_id now h
  step-IsDistinct s (now, approves token) h = approve-IsDistinct text s token now h

  -- However messages, sent prompts and approvals interleave, no token and no sender ever has two
  -- pending requests, if none has two at the start.
  pub run-IsDistinct :
      (s : DispatcherAccessState) (es : List (ℕ × Event))
      → IsDistinct s.pending
      → IsDistinct (run text s es).pending
  unfolding run
  run-IsDistinct s [] h = h
  run-IsDistinct s (e ∷ es) h = run-IsDistinct (step text s e) es (step-IsDistinct s e h)

  step-allow_users :
      (u : String) (s : DispatcherAccessState) (e : ℕ × Event) (es : List (ℕ × Event))
      → includes u (step text s e).allow_users ≡ true
      → (includes u s.allow_users ≡ true) ⊎ WasApproved text u s (e ∷ es)
  unfolding step
  step-allow_users u s (now, inbound i tokens) es h =
      ground (arith, commit-SamePolicy s i now tokens)
  step-allow_users u s (now, referenced a) es h = ground (arith, refresh-SamePolicy s a now)
  step-allow_users u s (now, prompted i a message_id) es h =
      ground (arith, record-SamePolicy s i a message_id now)
  step-allow_users u s (now, approves token) es h =
      elim ((approve-allow_users text s token u now).0 h) [
        | inl old ↦ inl old
        | inr named ↦ inr (now_approved now token named)
      ]

  allow_users-step :
      (u : String) (s : DispatcherAccessState) (e : ℕ × Event)
      → includes u s.allow_users ≡ true
      → includes u (step text s e).allow_users ≡ true
  unfolding step
  allow_users-step u s (now, inbound i tokens) h = ground (arith, commit-SamePolicy s i now tokens)
  allow_users-step u s (now, referenced a) h = ground (arith, refresh-SamePolicy s a now)
  allow_users-step u s (now, prompted i a message_id) h =
      ground (arith, record-SamePolicy s i a message_id now)
  allow_users-step u s (now, approves token) h = (approve-allow_users text s token u now).1 (inl h)

  allow_users-run :
      (u : String) (s : DispatcherAccessState) (es : List (ℕ × Event))
      → includes u s.allow_users ≡ true
      → includes u (run text s es).allow_users ≡ true
  unfolding run
  allow_users-run u s [] h = h
  allow_users-run u s (e ∷ es) h = allow_users-run u (step text s e) es (allow_users-step u s e h)

  WasApproved-run :
      (u : String) {s : DispatcherAccessState} {es : List (ℕ × Event)}
      → WasApproved text u s es
      → includes u (run text s es).allow_users ≡ true
  unfolding run step
  WasApproved-run u {s} (now_approved now token {es} named) =
      allow_users-run u _ es ((approve-allow_users text s token u now).1 (inr named))
  WasApproved-run u (later w) = WasApproved-run u w

  run-WasApproved :
      (u : String) (s : DispatcherAccessState) (es : List (ℕ × Event))
      → includes u (run text s es).allow_users ≡ true
      → (includes u s.allow_users ≡ true) ⊎ WasApproved text u s es
  unfolding run
  run-WasApproved u s [] h = inl h
  run-WasApproved u s (e ∷ es) h = elim (run-WasApproved u (step text s e) es h) [
    | inl now ↦ step-allow_users u s e es now
    | inr w ↦ inr (later w)
  ]

  -- A sender is on the allowlist after a run exactly when it was there before or some approval
  -- along the run named it: pairing prompts and messages alone admit nobody, and nobody is dropped.
  pub run-allow_users_iff :
      (u : String) (s : DispatcherAccessState) (es : List (ℕ × Event))
      → (includes u (run text s es).allow_users ≡ true)
        ↔ ((includes u s.allow_users ≡ true) ⊎ WasApproved text u s es)
  run-allow_users_iff u s es = (
    run-WasApproved u s es,
    elim [ inl h ↦ allow_users-run u s es h | inr w ↦ WasApproved-run u w ],
  )

  -- An approval that succeeds puts its sender on the allowlist and spends the token: a second use
  -- of it, at any time, is refused and changes nothing.
  pub approve_single_use :
      (s : DispatcherAccessState) (token u : String) (now again : ℕ)
      → Names text s now token u
      → let t = (approve_pairing_by_token text s token now).0 in
        (includes u t.allow_users ≡ true)
        × (approve_pairing_by_token text t token again ≡ (t, not_found))
  unfolding approve_pairing_by_token
  approve_single_use s token u now again h =
      ground (arith, approve_lowered_once s (text.to_lower_case token) u now again)
