-- ===== src/AskUser/Settlement.antt =====
-- Runs of the registry and the settlements that they give. (ask-user/registry.ts)
use dreamux.Base.{
  ℕ, ◌+◌, ◌≤◌, ◌≡◌, refl, ap, ◌∙◌, String, Option, none, some, List, [], ◌∷◌, nat_eq, if◌then◌else◌,
  ◌==◌, arith, Option-cases, Bool-cases, inl, inr,
}
use dreamux.Base.Dict.{lookup, lookup-insert, lookup-remove}
use dreamux.AskUser.Round.{
  AskUserSettlement, FeishuSentMessage, OpenRound, AskUserOption, AskUserQuestionSpec, Outcome,
  settlement_of, submitted, cancelled,
}
use dreamux.AskUser.Registry.{
  Rounds, FeishuCardActionEvent, AskUserApplyResult, Toast, landed, activate, expire, settle,
  toasted, repainted, pick, free_text, answer, apply_round, apply, abandon_all, item_or_none,
  text_or_empty, submit_action, cancel_action, pick_action, is_empty,
}
use dreamux.AskUser.Events.{
  Event, activates, clicks, times_out, abandons, settlement_in, expiry_in, step, add_settlement,
  run, settlements_of, activations_of,
}

-- Every round in play stands under its own request id.
abbrev IsKeyed : Rounds → Type 0
IsKeyed rounds =
    (id : String) (round : OpenRound) → lookup id rounds ≡ some round → round.request_id ≡ id

abbrev some_to_one {ℓ} : {A : Type ℓ} → Option A → ℕ
some_to_one none = 0
some_to_one (some a) = 1

abbrev held : String → Rounds → ℕ
held r rounds = some_to_one (lookup r rounds)

abbrev settles : String → Option AskUserSettlement → ℕ
settles r none = 0
settles r (some s) = if s.request_id == r then 1 else 0

-- What every click on a round in play keeps: its key, and that a settlement takes a round away.
abbrev Spends : Rounds → Rounds × AskUserApplyResult → Type 0
Spends rounds clicked =
    IsKeyed clicked.0
    × ((r : String) → settles r (settlement_in clicked.1) + held r clicked.0 ≤ held r rounds)

repainted-Spends :
    (rounds : Rounds) (round repaired : OpenRound) (toast : Toast)
    → IsKeyed rounds
    → lookup round.request_id rounds ≡ some round
    → repaired.request_id ≡ round.request_id
    → Spends rounds (repainted rounds repaired toast)
repainted-Spends rounds round repaired toast keyed found same = (
  λ id other h.
      ground (arith, keyed id other, lookup-insert repaired.request_id id repaired rounds),
  λ r. ground (arith, lookup-insert repaired.request_id r repaired rounds),
)

settle-Spends :
    (rounds : Rounds) (round : OpenRound) (outcome : Outcome) (event : FeishuCardActionEvent)
    → IsKeyed rounds
    → lookup round.request_id rounds ≡ some round
    → Spends rounds (settle rounds round outcome event)
unfolding settle settlement_of
settle-Spends rounds round outcome event keyed found = (
  λ id other h. ground (arith, keyed id other, lookup-remove round.request_id id rounds),
  λ r. ground (arith, lookup-remove round.request_id r rounds),
)

toasted-Spends :
    (rounds : Rounds) (toast : Toast) → IsKeyed rounds → Spends rounds (toasted rounds toast)
toasted-Spends rounds toast keyed = (keyed, λ r. ground arith)

pick-Spends :
    (rounds : Rounds) (round : OpenRound) (question_index : ℕ) (found : Option (ℕ × AskUserOption))
    → IsKeyed rounds
    → lookup round.request_id rounds ≡ some round
    → Spends rounds (pick rounds round question_index found)
unfolding pick
pick-Spends rounds round q none keyed found = toasted-Spends rounds Toast.option_gone keyed
pick-Spends rounds round q (some (i, o)) keyed found =
    repainted-Spends rounds round _ (Toast.chosen o.label) keyed found refl

free_text-Spends :
    (rounds : Rounds) (round : OpenRound) (question_index : ℕ) (text : String)
    → IsKeyed rounds
    → lookup round.request_id rounds ≡ some round
    → Spends rounds (free_text rounds round question_index text)
unfolding free_text
free_text-Spends rounds round q text keyed found = elim (Bool-cases (text == "")) [
  | inl h ↦ rw (free_text, h) (repainted-Spends rounds round _ Toast.cleared keyed found refl)
  | inr h ↦
      rw (free_text, h) (repainted-Spends rounds round _ (Toast.other_text text) keyed found refl)
]

answer-Spends :
    (trim : String → String) (rounds : Rounds) (round : OpenRound) (event : FeishuCardActionEvent)
    → (found : Option (ℕ × AskUserQuestionSpec)) → IsKeyed rounds
    → lookup round.request_id rounds ≡ some round
    → Spends rounds (answer trim rounds round event found)
unfolding answer
answer-Spends trim rounds round event none keyed found =
    toasted-Spends rounds Toast.option_gone keyed
answer-Spends trim rounds round event (some (i, q)) keyed found =
    elim (Bool-cases (event.action == pick_action)) [
      | inl h ↦
          rw (h)
            (pick-Spends rounds round i (item_or_none q.options event.option_index) keyed found)
      | inr h ↦
          rw (h)
            (free_text-Spends rounds round i (trim (text_or_empty event.input_value)) keyed found)
    ]

apply_round-Spends :
    (trim : String → String) (rounds : Rounds) (round : OpenRound) (event : FeishuCardActionEvent)
    → IsKeyed rounds
    → lookup round.request_id rounds ≡ some round
    → Spends rounds (apply_round trim rounds round event)
unfolding apply_round
apply_round-Spends trim rounds round event keyed found =
    elim (Bool-cases (event.action == submit_action)) [
      | inl h ↦ elim (Bool-cases (is_empty round.answers)) [
        | inl e ↦ rw (apply_round, h, e) (toasted-Spends rounds Toast.choose_first keyed)
        | inr e ↦ rw (apply_round, h, e) (settle-Spends rounds round submitted event keyed found)
      ]
      | inr h ↦ elim (Bool-cases (event.action == cancel_action)) [
        | inl e ↦ rw (apply_round, h, e) (settle-Spends rounds round cancelled event keyed found)
        | inr e ↦
            rw (apply_round, h, e)
              (answer-Spends trim rounds round event
                (item_or_none round.questions event.question_index) keyed found)
      ]
    ]

apply-Spends :
    (trim : String → String) (rounds : Rounds) (event : FeishuCardActionEvent)
    → IsKeyed rounds
    → Spends rounds (apply trim rounds event)
unfolding apply
apply-Spends trim rounds event keyed = elim (Option-cases (lookup event.request_id rounds)) [
  | inl e ↦ rw (apply, e) (toasted-Spends rounds Toast.round_gone keyed)
  | inr (round, e) ↦
      rw (apply, e)
        (apply_round-Spends trim rounds round event keyed
          (ap (λ id. lookup id rounds) (keyed event.request_id round e) ∙ e))
]

expire-Spends :
    (rounds : Rounds) (id : String) (object : ℕ)
    → IsKeyed rounds
    → IsKeyed (expire rounds id object).0
      × ((r : String)
          → settles r (expiry_in (expire rounds id object).1) + held r (expire rounds id object).0
            ≤ held r rounds)
unfolding expire settlement_of
expire-Spends rounds id object keyed = elim (Option-cases (lookup id rounds)) [
  | inl e ↦ rw (expire, e) (keyed, λ r. ground arith)
  | inr (round, e) ↦ elim (Bool-cases (nat_eq round.object object)) [
    | inl same ↦
        rw (expire, e, same)
          (
            λ other found h.
                ground (arith, keyed other found, lookup-remove round.request_id other rounds),
            λ r. ground (arith, keyed id round e, lookup-remove round.request_id r rounds),
          )
    | inr stale ↦ rw (expire, e, stale) (keyed, λ r. ground arith)
  ]
]

activate-Spends :
    (rounds : Rounds) (round : OpenRound) (sent : Option FeishuSentMessage)
    → IsKeyed rounds
    → IsKeyed (activate rounds round sent)
      × ((r : String)
          → held r (activate rounds round sent)
            ≤ held r rounds + (if round.request_id == r then 1 else 0))
unfolding activate
activate-Spends rounds round none keyed = (
  λ id other h. ground (arith, keyed id other, lookup-insert round.request_id id round rounds),
  λ r. ground (arith, lookup-insert round.request_id r round rounds),
)
activate-Spends rounds round (some sent) keyed =
    let shown = landed round (some sent) in
    (
      λ id other h. ground (arith, keyed id other, lookup-insert round.request_id id shown rounds),
      λ r. ground (arith, lookup-insert round.request_id r shown rounds),
    )

settlements_of-add :
    (r : String) (o : Option AskUserSettlement) (settlements : List AskUserSettlement)
    → settlements_of r (add_settlement o settlements) ≡ settles r o + settlements_of r settlements
settlements_of-add r none settlements = omega arith
settlements_of-add r (some s) settlements = ground arith

run_spends :
    (trim : String → String) (r : String) (rounds : Rounds) (es : List Event)
    → IsKeyed rounds
    → settlements_of r (run trim rounds es).1 ≤ held r rounds + activations_of r es
unfolding run step abandon_all lookup
run_spends trim r rounds [] keyed = omega arith
run_spends trim r rounds (activates round sent ∷ es) keyed =
    let spent = activate-Spends rounds round sent keyed in
    let here = spent.1 r in
    let later = run_spends trim r (activate rounds round sent) es spent.0 in ground arith
run_spends trim r rounds (clicks event ∷ es) keyed =
    let spent = apply-Spends trim rounds event keyed in
    let here = spent.1 r in
    let later = run_spends trim r (apply trim rounds event).0 es spent.0 in
    let more =
      settlements_of-add r (settlement_in (apply trim rounds event).1)
        (run trim (apply trim rounds event).0 es).1 in
    omega (arith, more, here, later)
run_spends trim r rounds (times_out id object ∷ es) keyed =
    let spent = expire-Spends rounds id object keyed in
    let here = spent.1 r in
    let later = run_spends trim r (expire rounds id object).0 es spent.0 in
    let more =
      settlements_of-add r (expiry_in (expire rounds id object).1)
        (run trim (expire rounds id object).0 es).1 in
    omega (arith, more, here, later)
run_spends trim r rounds (abandons ∷ es) keyed =
    let later = run_spends trim r [] es (λ id round h. ground arith) in omega (arith, later)

-- However clicks, timers and abandonments interleave, also with those of a round that is gone: no
-- request is settled more often than its round was put in play.
pub settles_once :
    (trim : String → String) (r : String) (es : List Event)
    → settlements_of r (run trim [] es).1 ≤ activations_of r es
unfolding lookup
settles_once trim r es =
    let spent = run_spends trim r [] es (λ id round h. ground arith) in omega (arith, spent)
