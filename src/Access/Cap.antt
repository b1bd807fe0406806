-- ===== src/Access/Cap.antt =====
-- The bound on pending requests and the fresh tokens of access/gate.ts, and what the recording of a
-- sent prompt in access/index.ts makes of them.
use Prim.Native.Nat.add
use dreamux.Base.{
  ℕ, zero, suc, ◌+◌, ◌≤◌, ◌<◌, ◌≡◌, refl, String, false, Option, none, [], ◌∷◌, arith, keep,
  Bool-cases, inl, inr,
}
use dreamux.Base.Dict.{lookup, insert}
use dreamux.Access.State.{PendingPairingEntry, PendingMap, DispatcherAccessState, max_pending}
use dreamux.Access.Gate.{
  GateInbound, PairingAction, pair, is_live, is_taken, count_active_pending, draw_token,
  generate_unique_pairing_token, prune_expired_pending, dm_pair_path, gate_working,
  dreamux_feishu_gate,
}
use dreamux.Access.Commit.{find_by_sender, approved_meanwhile, record_pruned, record_pairing_prompt}
use dreamux.Access.Slots.{lookup-keep-none, find_by_sender-keep-none}

draw_token-fresh :
    (existing : PendingMap) (tokens : ℕ → String) (left i j : ℕ)
    → j ≤ left
    → is_taken existing (tokens (i + j)) ≡ false
    → is_taken existing (draw_token existing tokens left i) ≡ false
unfolding draw_token
draw_token-fresh existing tokens zero i j h f = let e : i + j ≡ i = omega arith in rw e at f
draw_token-fresh existing tokens (suc left) i zero h f =
    let e : i + 0 ≡ i = omega arith in let free = rw e at f in rw free free
draw_token-fresh existing tokens (suc left) i (suc j) h f =
    elim (Bool-cases (is_taken existing (tokens i))) [
      | inl taken ↦
          let e : i + suc j ≡ suc i + j = omega arith in
          rw taken (draw_token-fresh existing tokens left (suc i) j (omega arith) (rw e at f))
      | inr free ↦ rw free free
    ]

count-keep :
    (m : PendingMap) (now : ℕ)
    → count_active_pending (keep (λ x. is_live now x.1) m) now ≡ count_active_pending m now
unfolding count_active_pending
count-keep [] now = refl
count-keep (x ∷ m) now = ground (arith, count-keep m now)

count-prune :
    (s : DispatcherAccessState) (now : ℕ)
    → count_active_pending (prune_expired_pending s now).pending now
      ≡ count_active_pending s.pending now
unfolding prune_expired_pending
count-prune s now = ground (arith, count-keep s.pending now)

dm_pair_path-below_cap :
    (s : DispatcherAccessState) (i : GateInbound) (now : ℕ) (tokens : ℕ → String)
    (a : PairingAction)
    → (dm_pair_path s i now tokens).action ≡ pair a
    → a.is_resend ≡ false
    → (count_active_pending s.pending now < max_pending)
      × (a.token ≡ generate_unique_pairing_token s.pending tokens)
unfolding dm_pair_path
dm_pair_path-below_cap s i now tokens a h r = ground arith

gate_working-below_cap :
    (s : DispatcherAccessState) (i : GateInbound) (now : ℕ) (tokens : ℕ → String)
    (a : PairingAction)
    → (gate_working i.chat_type s i now tokens).action ≡ pair a
    → a.is_resend ≡ false
    → (count_active_pending s.pending now < max_pending)
      × (a.token ≡ generate_unique_pairing_token s.pending tokens)
unfolding gate_working
gate_working-below_cap s i now tokens a h r =
    ground (arith, dm_pair_path-below_cap s i now tokens a)

count-insert_new :
    (token : String) (v : PendingPairingEntry) (m : PendingMap) (now : ℕ)
    → lookup token m ≡ none
    → now < v.expires_at
    → count_active_pending (insert token v m) now ≡ suc (count_active_pending m now)
unfolding count_active_pending lookup insert
count-insert_new token v [] now h l = ground arith
count-insert_new token v (x ∷ m) now h l = ground (arith, count-insert_new token v m now)

record_pruned-uncapped :
    (s : DispatcherAccessState) (i : GateInbound) (a : PairingAction) (message_id : Option String)
    (now : ℕ)
    → find_by_sender s.pending i.sender_id ≡ none
    → lookup a.token s.pending ≡ none
    → count_active_pending (record_pruned s i a message_id now).pending now
      ≡ suc (count_active_pending s.pending now)
unfolding record_pruned
record_pruned-uncapped s i a message_id now f l =
    rw (f, record_pruned) (count-insert_new a.token _ s.pending now l (omega arith))

pub prune-absent :
    (s : DispatcherAccessState) (now : ℕ) (token sender : String)
    → find_by_sender s.pending sender ≡ none
    → lookup token s.pending ≡ none
    → (find_by_sender (prune_expired_pending s now).pending sender ≡ none)
      × (lookup token (prune_expired_pending s now).pending ≡ none)
unfolding prune_expired_pending
prune-absent s now token sender f l = ground (
  arith,
  find_by_sender-keep-none (λ x. is_live now x.1) sender s.pending f,
  lookup-keep-none (λ x. is_live now x.1) token s.pending l,
)

-- A recorded prompt of a sender without a request adds a live request, also at the cap.
pub record-uncapped :
    (s : DispatcherAccessState) (i : GateInbound) (a : PairingAction) (message_id : Option String)
    (now : ℕ)
    → approved_meanwhile s i a.kind ≡ false
    → find_by_sender s.pending i.sender_id ≡ none
    → lookup a.token s.pending ≡ none
    → count_active_pending (record_pairing_prompt s i a message_id now).pending now
      ≡ suc (count_active_pending s.pending now)
unfolding record_pairing_prompt record_pruned
record-uncapped s i a message_id now h f l =
    let (f', l') = prune-absent s now a.token i.sender_id f l in
    ground (
      arith,
      record_pruned-uncapped (prune_expired_pending s now) i a message_id now f' l',
      count-prune s now,
    )

-- The gate offers a new request only below the cap, and under a token that no live request has, if
-- one of the first 1001 random tokens is free.
pub gate_below_cap :
    (s : DispatcherAccessState) (i : GateInbound) (now : ℕ) (tokens : ℕ → String)
    (a : PairingAction) (j : ℕ)
    → (dreamux_feishu_gate s i now tokens).action ≡ pair a
    → a.is_resend ≡ false
    → j ≤ 1000
    → is_taken (prune_expired_pending s now).pending (tokens j) ≡ false
    → (count_active_pending s.pending now < max_pending)
      × (is_taken (prune_expired_pending s now).pending a.token ≡ false)
unfolding dreamux_feishu_gate generate_unique_pairing_token
gate_below_cap s i now tokens a j h r le free =
    let p = prune_expired_pending s now in
    let (below, e) = gate_working-below_cap p i now tokens a h r in
    (
      rw (count-prune s now) at below,
      rw e (draw_token-fresh p.pending tokens 1000 0 j le (rw add.zero free)),
    )
