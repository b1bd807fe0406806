-- ===== src/AskUser/Events.antt =====
-- Clicks, timers and abandonments in any order. (ask-user/registry.ts)
use dreamux.Base.{ℕ, suc, String, Option, none, some, List, [], ◌∷◌, if◌then◌else◌, ◌==◌}
use dreamux.AskUser.Round.{AskUserSettlement, FeishuSentMessage, OpenRound}
use dreamux.AskUser.Registry.{
  Rounds, FeishuCardActionEvent, AskUserApplyResult, response, settled, activate, expire, apply,
  abandon_all,
}

pub data Event : Type 0 where
  activates : OpenRound → Option FeishuSentMessage → Event
  clicks : FeishuCardActionEvent → Event
  times_out : String → ℕ → Event
  abandons : Event

abbrev pub settlement_in : AskUserApplyResult → Option AskUserSettlement
settlement_in (response r) = none
settlement_in (settled r s) = some s

abbrev pub expiry_in {ℓ} : {A : Type ℓ} → Option (AskUserSettlement × A) → Option AskUserSettlement
expiry_in none = none
expiry_in (some e) = some e.0

unfoldable pub step : (String → String) → Rounds → Event → Rounds × Option AskUserSettlement
unfolding activate expire apply abandon_all
step trim rounds (activates round sent) = (activate rounds round sent, none)
step trim rounds (clicks event) =
    let clicked = apply trim rounds event in (clicked.0, settlement_in clicked.1)
step trim rounds (times_out request_id object) =
    let expired = expire rounds request_id object in (expired.0, expiry_in expired.1)
step trim rounds abandons = (abandon_all rounds, none)

abbrev pub add_settlement :
    Option AskUserSettlement → List AskUserSettlement → List AskUserSettlement
add_settlement none settlements = settlements
add_settlement (some s) settlements = s ∷ settlements

-- The settlements of a run, the first one first, and the rounds that it leaves in play.
unfoldable pub run : (String → String) → Rounds → List Event → Rounds × List AskUserSettlement
unfolding step
run trim rounds [] = (rounds, [])
run trim rounds (e ∷ es) =
    let rest = run trim (step trim rounds e).0 es in
    (rest.0, add_settlement (step trim rounds e).1 rest.1)

abbrev pub settlements_of : String → List AskUserSettlement → ℕ
settlements_of r [] = 0
settlements_of r (s ∷ rest) =
    if s.request_id == r then suc (settlements_of r rest) else settlements_of r rest

abbrev pub activations_of : String → List Event → ℕ
activations_of r [] = 0
activations_of r (activates round sent ∷ es) =
    if round.request_id == r then suc (activations_of r es) else activations_of r es
activations_of r (clicks event ∷ es) = activations_of r es
activations_of r (times_out id object ∷ es) = activations_of r es
activations_of r (abandons ∷ es) = activations_of r es
