-- ===== src/Access/Concurrent.antt =====
-- Prompts that are in flight at once: the recording of each in access/index.ts.
use dreamux.Base.{
  ℕ, ◌+◌, ◌≡◌, refl, ◌∙◌, String, Bool, true, false, not, ◌&&◌, Option, none, some, List, [], ◌∷◌,
  ◌==◌, length, arith,
}
use dreamux.Base.Dict.{lookup, insert, lookup-insert}
use dreamux.Access.State.{PendingPairingEntry, PendingMap, DispatcherAccessState}
use dreamux.Access.Gate.{GateInbound, PairingAction, count_active_pending, prune_expired_pending}
use dreamux.Access.Commit.{find_by_sender, approved_meanwhile, record_pruned, record_pairing_prompt}
use dreamux.Access.Cap.{record-uncapped, prune-absent}

-- A prompt that the gate offered, and the message that was sent.
pub record Prompt : Type 0 where
  pub inbound : GateInbound
  pub action : PairingAction
  pub message_id : Option String

-- Prompts are recorded as their messages arrive.
unfoldable pub record_all : ℕ → DispatcherAccessState → List Prompt → DispatcherAccessState
record_all now s [] = s
record_all now s (p ∷ ps) =
    record_all now (record_pairing_prompt s p.inbound p.action p.message_id now) ps

abbrev pub is_apart : Prompt → List Prompt → Bool
is_apart p [] = true
is_apart p (q ∷ ps) =
    not (p.inbound.sender_id == q.inbound.sender_id)
    && not (p.action.token == q.action.token)
    && is_apart p ps

abbrev pub is_absent {ℓ} : {A : Type ℓ} → Option A → Bool
is_absent none = true
is_absent (some a) = false

-- The senders are not approved and have no request, the tokens are free, and no two prompts share a
-- sender or a token.
unfoldable pub are_new : DispatcherAccessState → List Prompt → Bool
unfolding find_by_sender lookup
are_new s [] = true
are_new s (p ∷ ps) =
    not (approved_meanwhile s p.inbound p.action.kind)
    && is_absent (find_by_sender s.pending p.inbound.sender_id)
    && is_absent (lookup p.action.token s.pending)
    && is_apart p ps
    && are_new s ps

find_by_sender-insert :
    (token sender : String) (v : PendingPairingEntry) (m : PendingMap)
    → find_by_sender m sender ≡ none
    → (v.sender_id == sender) ≡ false
    → find_by_sender (insert token v m) sender ≡ none
unfolding find_by_sender insert
find_by_sender-insert token sender v [] h other = ground arith
find_by_sender-insert token sender v (x ∷ m) h other =
    ground (arith, find_by_sender-insert token sender v m)

-- What a recorded prompt leaves as it is.
record_keeps :
    (s : DispatcherAccessState) (p : Prompt) (now : ℕ) (sender token : String)
    → approved_meanwhile s p.inbound p.action.kind ≡ false
    → find_by_sender s.pending p.inbound.sender_id ≡ none
    → lookup p.action.token s.pending ≡ none
    → (p.inbound.sender_id == sender) ≡ false
    → (p.action.token == token) ≡ false
    → find_by_sender s.pending sender ≡ none
    → lookup token s.pending ≡ none
    → (find_by_sender (record_pairing_prompt s p.inbound p.action p.message_id now).pending sender
        ≡ none)
      × (lookup token (record_pairing_prompt s p.inbound p.action p.message_id now).pending ≡ none)
unfolding record_pairing_prompt record_pruned
record_keeps s p now sender token admits f l apart_s apart_t gone_s gone_t =
    let own = prune-absent s now p.action.token p.inbound.sender_id f l in
    let other = prune-absent s now token sender gone_s gone_t in
    let pruned = (prune_expired_pending s now).pending in
    rw (record_pairing_prompt, admits, record_pruned, own.0)
      (
        find_by_sender-insert p.action.token sender _ pruned other.0 apart_s,
        lookup-insert p.action.token token _ pruned ∙ (rw apart_t other.1),
      )

record_lists :
    (s : DispatcherAccessState) (p : Prompt) (now : ℕ)
    → ((record_pairing_prompt s p.inbound p.action p.message_id now).allow_users ≡ s.allow_users)
      × ((record_pairing_prompt s p.inbound p.action p.message_id now).group_access
          ≡ s.group_access)
unfolding record_pairing_prompt record_pruned prune_expired_pending
record_lists s p now = ground arith

are_new-record :
    (s : DispatcherAccessState) (p : Prompt) (now : ℕ) (ps : List Prompt)
    → approved_meanwhile s p.inbound p.action.kind ≡ false
    → find_by_sender s.pending p.inbound.sender_id ≡ none
    → lookup p.action.token s.pending ≡ none
    → is_apart p ps ≡ true
    → are_new s ps ≡ true
    → are_new (record_pairing_prompt s p.inbound p.action p.message_id now) ps ≡ true
unfolding are_new
are_new-record s p now [] admits f l apart new = refl
are_new-record s p now (q ∷ ps) admits f l apart new =
    let lists = record_lists s p now in
    let free =
      record_keeps s p now q.inbound.sender_id q.action.token admits f l (ground arith)
        (ground arith) (ground arith) (ground arith) in
    ground (arith, free, lists, are_new-record s p now ps admits f l)

-- Prompts of new senders under new tokens that are in flight at once all become live requests,
-- however many they are and however many there were before.
pub concurrent_prompts_add_up :
    (s : DispatcherAccessState) (now : ℕ) (ps : List Prompt)
    → are_new s ps ≡ true
    → count_active_pending (record_all now s ps).pending now
      ≡ count_active_pending s.pending now + length ps
unfolding record_all are_new
concurrent_prompts_add_up s now [] new = omega arith
concurrent_prompts_add_up s now (p ∷ ps) new =
    let admits : approved_meanwhile s p.inbound p.action.kind ≡ false = ground arith in
    let f : find_by_sender s.pending p.inbound.sender_id ≡ none = ground arith in
    let l : lookup p.action.token s.pending ≡ none = ground arith in
    let one = record-uncapped s p.inbound p.action p.message_id now admits f l in
    let later = are_new-record s p now ps admits f l (ground arith) (ground arith) in
    omega (
      arith,
      one,
      concurrent_prompts_add_up (record_pairing_prompt s p.inbound p.action p.message_id now) now ps
          later,
    )
