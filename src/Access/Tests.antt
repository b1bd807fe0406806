-- ===== src/Access/Tests.antt =====
-- The access properties at one life of a request: a stranger writes, the card goes out, the
-- operator approves. Six-digit tokens stand for the runtime's own pattern.
use dreamux.Base.{
  length, ◌+◌, ℕ, ◌<◌, ◌≡◌, refl, ◌↔◌, ◌⊎◌, String, true, false, none, some, List, [], ◌∷◌, arith,
  includes, ◌==◌, String-discrete,
}
use dreamux.Base.Dict.{lookup, insert, remove}
use dreamux.Access.State.{
  PendingPairingKind, DispatcherAccessState, default_dispatcher_access_state, max_pending,
}
use dreamux.Access.Gate.{
  ChatType, GateInbound, PairingAction, deliver, pair, is_taken, count_active_pending,
  find_existing_pending_by_key, prune_expired_pending, dreamux_feishu_gate, dm_pair_path,
  generate_unique_pairing_token,
}
use dreamux.Access.Commit.{
  record_pruned, TokenText, not_found, approve_pairing_by_token, record_pairing_prompt,
  find_by_sender, gate,
}
use dreamux.Access.Decision.{IsAdmitted, gate-deliver_iff}
use dreamux.Access.Slots.{IsDistinct}
use dreamux.Access.History.{
  Event, inbound, prompted, approves, run, step, WasApproved, run-IsDistinct, run-allow_users_iff,
  approve_single_use,
}
use dreamux.Access.Cap.{gate_below_cap}
use dreamux.Access.Concurrent.{Prompt, record_all, are_new, concurrent_prompts_add_up}
use dreamux.Access.Admission.{direct_message_needs_approval}

abbrev hex_text : TokenText
hex_text = record { is_pairing_token = λ t. t == "a1b2c3"; to_lower_case = λ t. t }

abbrev drawn : ℕ → String
drawn _ = "a1b2c3"

abbrev stranger : GateInbound
stranger = record {
  chat_type = ChatType.p2p;
  sender_id = "ou_1";
  chat_id = "oc_1";
  is_bot_sender = false;
  trusted_bot = false;
  bot_mentioned = false;
}

abbrev offered : PairingAction
offered = record {
  kind = PendingPairingKind.dm;
  token = "a1b2c3";
  is_resend = false;
  ttl_left_ms = 3600000;
  prompt_message_id = none;
}

abbrev history : List (ℕ × Event)
history =
    (1, inbound stranger drawn)
    ∷ (2, prompted stranger offered (some "om_1"))
    ∷ (3, approves "a1b2c3")
    ∷ []

abbrev start : DispatcherAccessState
start = default_dispatcher_access_state

abbrev waiting : DispatcherAccessState
waiting = record_pairing_prompt start stranger offered (some "om_1") 2

-- What the tests compute with.
program : Unit {0}
unfolding run step record_pairing_prompt approve_pairing_by_token prune_expired_pending
    String-discrete default_dispatcher_access_state lookup insert remove find_by_sender
    dreamux_feishu_gate dm_pair_path find_existing_pending_by_key count_active_pending
    generate_unique_pairing_token gate record_all are_new record_pruned
program = tt

stranger_is_offered : (dreamux_feishu_gate start stranger 1 drawn).action ≡ pair offered
unfolding program
stranger_is_offered = refl

approval_listed : (run hex_text start history).allow_users ≡ "ou_1" ∷ []
unfolding program
approval_listed = refl

gate-deliver_iff_example :
    ((dreamux_feishu_gate start stranger 1 drawn).action ≡ deliver) ↔ IsAdmitted start stranger
gate-deliver_iff_example = gate-deliver_iff start stranger 1 drawn

run-IsDistinct_example : IsDistinct (run hex_text start history).pending
unfolding default_dispatcher_access_state
run-IsDistinct_example = run-IsDistinct hex_text start history tt

run-allow_users_iff_example :
    (includes "ou_1" (run hex_text start history).allow_users ≡ true)
    ↔ ((includes "ou_1" start.allow_users ≡ true) ⊎ WasApproved hex_text "ou_1" start history)
run-allow_users_iff_example = run-allow_users_iff hex_text "ou_1" start history

approve_single_use_example :
    let t = (approve_pairing_by_token hex_text waiting "a1b2c3" 3).0 in
    (includes "ou_1" t.allow_users ≡ true)
    × (approve_pairing_by_token hex_text t "a1b2c3" 4 ≡ (t, not_found))
unfolding program
approve_single_use_example = approve_single_use hex_text waiting "a1b2c3" "ou_1" 3 4 refl

gate_below_cap_example :
    (count_active_pending start.pending 1 < max_pending)
    × (is_taken (prune_expired_pending start 1).pending "a1b2c3" ≡ false)
unfolding program
gate_below_cap_example =
    gate_below_cap start stranger 1 drawn offered 0 refl refl (omega arith) refl

direct_message_needs_approval_example :
    ((dreamux_feishu_gate (run hex_text start history) stranger 5 drawn).action ≡ deliver)
    ↔ WasApproved hex_text "ou_1" start history
direct_message_needs_approval_example =
    direct_message_needs_approval hex_text history stranger 5 drawn refl refl

-- The prompt of a sender, whose id serves as the token too.
abbrev prompt_of : String → Prompt
prompt_of id = record {
  inbound = record stranger { sender_id = id };
  action = record offered { token = id };
  message_id = none;
}

abbrev prompts_of : List String → List Prompt
prompts_of [] = []
prompts_of (id ∷ ids) = prompt_of id ∷ prompts_of ids

abbrev eleven : List Prompt
eleven = prompts_of ("1" ∷ "2" ∷ "3" ∷ "4" ∷ "5" ∷ "6" ∷ "7" ∷ "8" ∷ "9" ∷ "10" ∷ "11" ∷ [])

over_the_cap : max_pending < count_active_pending (record_all 2 start eleven).pending 2
unfolding program
over_the_cap = omega arith

concurrent_prompts_add_up_example :
    count_active_pending (record_all 2 start eleven).pending 2
    ≡ count_active_pending start.pending 2 + length eleven
unfolding program
concurrent_prompts_add_up_example = concurrent_prompts_add_up start 2 eleven refl
