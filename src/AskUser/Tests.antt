-- ===== src/AskUser/Tests.antt =====
-- A round of one question, clicked through. (ask-user/registry.ts)
use dreamux.Base.{String-discrete, ℕ, ◌≤◌, ◌≡◌, refl, String, Option, none, some, List, [], ◌∷◌}
use dreamux.Base.Dict.{lookup, insert, remove}
use dreamux.AskUser.Round.{
  AskUserQuestionSpec, option, OpenRound, AskUserSettlement, item_at, answer_of, set_answer,
  delete_answer, answer_label, answered_lines, settlement_of, submitted_text, Body,
}
use dreamux.AskUser.Registry.{
  FeishuCardActionEvent, open_round, activate, expire, settle, pick, free_text, answer,
  item_or_none, apply_round, apply, abandon_all,
}
use dreamux.AskUser.Choice.{Answered, AllAnswers, apply_all, last_choice, last_choice_counts}
use dreamux.AskUser.Events.{
  Event, activates, clicks, times_out, step, run, settlements_of, activations_of,
}
use dreamux.AskUser.Settlement.{settles_once}

program : Unit {0}
unfolding String-discrete lookup insert remove item_at answer_of set_answer delete_answer
    answer_label answered_lines settlement_of open_round activate expire settle pick free_text
    answer item_or_none apply_round apply abandon_all step run
program = tt

abbrev colour : AskUserQuestionSpec
colour = record {
  header = "Colour";
  question = "Which one?";
  options =
      record { label = "red"; description = "" } ∷ record { label = "blue"; description = "" } ∷ [];
}

abbrev asked : OpenRound
asked = open_round 1 "r1" none (colour ∷ [])

abbrev click : String → Option ℕ → FeishuCardActionEvent
click action option_index = record {
  action = action;
  request_id = "r1";
  question_index = some 0;
  option_index = option_index;
  input_value = none;
  open_message_id = some "om_1";
  operator_open_id = some "ou_1";
}

-- An empty submit, two picks, a submit, and then a late click and the timer.
abbrev events : List Event
events =
    activates asked none
    ∷ clicks (click "ask_user_submit" none)
    ∷ clicks (click "ask_user_pick" (some 0))
    ∷ clicks (click "ask_user_pick" (some 1))
    ∷ clicks (click "ask_user_submit" none)
    ∷ clicks (click "ask_user_cancel" none)
    ∷ times_out "r1" 1
    ∷ []

abbrev identity : String → String
identity s = s

abbrev bodies : List AskUserSettlement → List Body
bodies [] = []
bodies (s ∷ rest) = s.text ∷ bodies rest

one_settlement :
    bodies (run identity [] events).1
    ≡ submitted_text (("Colour", "Which one?", some "blue") ∷ []) ∷ []
unfolding program
one_settlement = refl

settles_once_example : settlements_of "r1" (run identity [] events).1 ≤ activations_of "r1" events
settles_once_example = settles_once identity "r1" events

-- Red, then blue, on the one question of the round in play.
abbrev picks : List FeishuCardActionEvent
picks = click "ask_user_pick" (some 0) ∷ click "ask_user_pick" (some 1) ∷ []

asked_in_play : lookup asked.request_id (("r1", asked) ∷ []) ≡ some asked
unfolding program
asked_in_play = refl

picks-AllAnswers : AllAnswers asked.request_id picks
unfolding program
picks-AllAnswers = ((refl, refl, refl), ((refl, refl, refl), tt))

blue_last : last_choice identity (colour ∷ []) 0 none picks ≡ some (option 1)
unfolding program
blue_last = refl

last_choice_counts_example :
    Answered
      (apply_all identity (("r1", asked) ∷ []) picks)
      asked
      0
      (last_choice identity asked.questions 0 (answer_of 0 asked.answers) picks)
last_choice_counts_example =
    last_choice_counts identity (("r1", asked) ∷ []) asked 0 picks asked_in_play picks-AllAnswers
