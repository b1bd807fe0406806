-- ===== src/AskUser/Registry.antt =====
-- ask-user/registry.ts: the operations of the registry.
use dreamux.Base.{
  ℕ, String, Bool, true, false, Option, none, some, List, [], ◌∷◌, nat_eq, if◌then◌else◌, ◌==◌,
}
use dreamux.Base.Dict.{lookup, insert, remove}
use dreamux.AskUser.Round.{
  AskUserOption, AskUserQuestionSpec, option, other, item_at, Answers, set_answer, delete_answer,
  FeishuSentMessage, OpenRound, Outcome, submitted, cancelled, expired, AskUserSettlement,
  settlement_of,
}

abbrev pub Rounds : Type 0
Rounds = List (String × OpenRound)

pub data Card : Type 0 where
  question_card submitted_card : OpenRound → Card
  closed_card : Outcome → Option String → Card

-- Which toast a click is answered with: the message of each is fixed.
pub data Toast : Type 0 where
  round_gone choose_first option_gone cleared : Toast
  submitted_toast cancelled_toast : Toast
  chosen other_text : String → Toast

pub record FeishuCardActionResponse : Type 0 where
  pub toast : Toast
  pub card : Option Card

pub data AskUserApplyResult : Type 0 where
  response : FeishuCardActionResponse → AskUserApplyResult
  settled : FeishuCardActionResponse → AskUserSettlement → AskUserApplyResult

pub record FeishuCardActionEvent : Type 0 where
  pub action : String
  pub request_id : String
  pub question_index : Option ℕ
  pub option_index : Option ℕ
  pub input_value : Option String
  pub open_message_id : Option String
  pub operator_open_id : Option String

-- `open`: the round is built, and not yet in play.
unfoldable pub open_round : ℕ → String → Option String → List AskUserQuestionSpec → OpenRound
open_round object request_id text questions = record {
  object = object;
  request_id = request_id;
  text = text;
  questions = questions;
  answers = [];
  message_id = none;
  chat_id = none;
  thread_id = none;
}

abbrev pub landed : OpenRound → Option FeishuSentMessage → OpenRound
landed round none = round
landed round (some sent) = record round {
  message_id = some sent.message_id;
  chat_id = sent.chat_id;
  thread_id = sent.thread_id;
}

unfoldable pub activate : Rounds → OpenRound → Option FeishuSentMessage → Rounds
activate rounds round sent = insert round.request_id (landed round sent) rounds

-- The timer of a round object runs out: a settlement, or nothing.
unfoldable pub expire : Rounds → String → ℕ → Rounds × Option (AskUserSettlement × Card)
unfolding settlement_of
expire rounds request_id object = elim (lookup request_id rounds) [
  | none ↦ (rounds, none)
  | some round ↦
      if nat_eq round.object object
      then (
        remove round.request_id rounds,
        some (settlement_of round expired none none, closed_card expired round.text),
      )
      else (rounds, none)
]

abbrev final_card : Outcome → OpenRound → Card
final_card submitted round = submitted_card round
final_card cancelled round = closed_card cancelled round.text
final_card expired round = closed_card cancelled round.text

abbrev final_toast : Outcome → Toast
final_toast submitted = submitted_toast
final_toast cancelled = cancelled_toast
final_toast expired = cancelled_toast

unfoldable pub settle :
    Rounds → OpenRound → Outcome → FeishuCardActionEvent → Rounds × AskUserApplyResult
unfolding settlement_of
settle rounds round outcome event = (
  remove round.request_id rounds,
  settled (record { toast = final_toast outcome; card = some (final_card outcome round) })
      (settlement_of round outcome event.open_message_id event.operator_open_id),
)

abbrev pub toasted : Rounds → Toast → Rounds × AskUserApplyResult
toasted rounds toast = (rounds, response (record { toast = toast; card = none }))

abbrev pub repainted : Rounds → OpenRound → Toast → Rounds × AskUserApplyResult
repainted rounds round toast = (
  insert round.request_id round rounds,
  response (record { toast = toast; card = some (question_card round) }),
)

abbrev pub submit_action : String
submit_action = "ask_user_submit"

abbrev pub cancel_action : String
cancel_action = "ask_user_cancel"

abbrev pub pick_action : String
pick_action = "ask_user_pick"

unfoldable pub item_or_none {ℓ} : {A : Type ℓ} → List A → Option ℕ → Option (ℕ × A)
unfolding item_at
item_or_none xs none = none
item_or_none xs (some i) = elim (item_at xs i) [ none ↦ none | some x ↦ some (i, x) ]

unfoldable pub pick :
    Rounds → OpenRound → ℕ → Option (ℕ × AskUserOption) → Rounds × AskUserApplyResult
unfolding set_answer
pick rounds round question_index none = toasted rounds option_gone
pick rounds round question_index (some (i, chosen_option)) =
    repainted rounds (record round { answers = set_answer question_index (option i) round.answers })
      (chosen chosen_option.label)

abbrev pub text_or_empty : Option String → String
text_or_empty none = ""
text_or_empty (some t) = t

unfoldable pub free_text : Rounds → OpenRound → ℕ → String → Rounds × AskUserApplyResult
unfolding set_answer delete_answer
free_text rounds round question_index text =
    if text == ""
    then repainted rounds (record round { answers = delete_answer question_index round.answers })
        cleared
    else repainted rounds
        (record round { answers = set_answer question_index (other text) round.answers })
        (other_text text)

-- A click on a question: the last branches of `apply`.
unfoldable pub answer :
    (String → String)
    → Rounds
    → OpenRound
    → FeishuCardActionEvent
    → Option (ℕ × AskUserQuestionSpec)
    → Rounds × AskUserApplyResult
unfolding pick free_text item_or_none
answer trim rounds round event none = toasted rounds option_gone
answer trim rounds round event (some (i, question)) =
    if event.action == pick_action
    then pick rounds round i (item_or_none question.options event.option_index)
    else free_text rounds round i (trim (text_or_empty event.input_value))

abbrev pub is_empty : Answers → Bool
is_empty [] = true
is_empty (a ∷ rest) = false

-- `apply` on the round that it found.
unfoldable pub apply_round :
    (String → String) → Rounds → OpenRound → FeishuCardActionEvent → Rounds × AskUserApplyResult
unfolding settle answer item_or_none
apply_round trim rounds round event =
    if event.action == submit_action
    then (if is_empty round.answers
        then toasted rounds choose_first
        else settle rounds round submitted event)
    else if event.action == cancel_action
    then settle rounds round cancelled event
    else answer trim rounds round event (item_or_none round.questions event.question_index)

unfoldable pub apply :
    (String → String) → Rounds → FeishuCardActionEvent → Rounds × AskUserApplyResult
unfolding apply_round
apply trim rounds event = elim (lookup event.request_id rounds) [
  | none ↦ toasted rounds round_gone
  | some round ↦ apply_round trim rounds round event
]

unfoldable pub abandon_all : Rounds → Rounds
abandon_all rounds = []
