-- ===== src/AskUser/Choice.antt =====
-- What the clicks on a round make of its answers. (ask-user/registry.ts)
use dreamux.Base.{
  ℕ, ◌≡◌, refl, sym, subst, ap, ◌∙◌, String, false, Option, none, some, List, [], ◌∷◌, nat_eq,
  if◌then◌else◌, ◌==◌, arith, Bool-cases, inl, inr,
}
use dreamux.Base.Dict.{lookup, lookup-insert}
use dreamux.AskUser.Round.{
  OpenRound, AskUserOption, AskUserQuestionSpec, AskUserAnswer, option, other, Answers, answer_of,
  set_answer, delete_answer,
}
use dreamux.AskUser.Registry.{
  Rounds, FeishuCardActionEvent, pick, free_text, answer, apply_round, apply, item_or_none,
  text_or_empty, submit_action, cancel_action, pick_action,
}

answer_of-set_answer :
    (set q : ℕ) (a : AskUserAnswer) (answers : Answers)
    → answer_of q (set_answer set a answers)
      ≡ (if nat_eq set q then some a else answer_of q answers)
unfolding answer_of set_answer
answer_of-set_answer set q a [] = refl
answer_of-set_answer set q a (b ∷ rest) = ground (arith, answer_of-set_answer set q a rest)

answer_of-delete_answer :
    (deleted q : ℕ) (answers : Answers)
    → answer_of q (delete_answer deleted answers)
      ≡ (if nat_eq deleted q then none else answer_of q answers)
unfolding answer_of delete_answer
answer_of-delete_answer deleted q [] = ground arith
answer_of-delete_answer deleted q (b ∷ rest) =
    ground (arith, answer_of-delete_answer deleted q rest)

abbrev pub picked : Option AskUserAnswer → Option (ℕ × AskUserOption) → Option AskUserAnswer
picked current none = current
picked current (some (i, o)) = some (option i)

abbrev pub typed : String → Option AskUserAnswer
typed text = if text == "" then none else some (other text)

-- What one click makes of the answer to question `q`: the last pick or text counts, a blank text
-- takes the answer back, and a click on no option or on another question leaves it.
abbrev pub chosen :
    (String → String)
    → FeishuCardActionEvent
    → ℕ
    → Option AskUserAnswer
    → Option (ℕ × AskUserQuestionSpec)
    → Option AskUserAnswer
chosen trim event q current none = current
chosen trim event q current (some (i, question)) =
    if nat_eq i q
    then (if event.action == pick_action
        then picked current (item_or_none question.options event.option_index)
        else typed (trim (text_or_empty event.input_value)))
    else current

-- The round stands under its id with the same questions, and `q` has this answer.
abbrev pub Answered : Rounds → OpenRound → ℕ → Option AskUserAnswer → Type 0
Answered rounds round q a =
    (after : OpenRound) × (lookup round.request_id rounds ≡ some after)
    × (after.request_id ≡ round.request_id)
    × (after.questions ≡ round.questions)
    × (answer_of q after.answers ≡ a)

pick-Answered :
    (rounds : Rounds) (round : OpenRound) (i q : ℕ) (found : Option (ℕ × AskUserOption))
    → lookup round.request_id rounds ≡ some round
    → Answered
        (pick rounds round i found).0
        round
        q
        (if nat_eq i q then picked (answer_of q round.answers) found else answer_of q round.answers)
unfolding pick
pick-Answered rounds round i q none h = (round, h, refl, refl, ground arith)
pick-Answered rounds round i q (some (j, o)) h =
    let next : OpenRound = record round { answers = set_answer i (option j) round.answers } in
    (
      next,
      ground (arith, lookup-insert round.request_id round.request_id next rounds),
      refl,
      refl,
      answer_of-set_answer i q (option j) round.answers,
    )

free_text-Answered :
    (rounds : Rounds) (round : OpenRound) (i q : ℕ) (text : String)
    → Answered
        (free_text rounds round i text).0
        round
        q
        (if nat_eq i q then typed text else answer_of q round.answers)
unfolding free_text
free_text-Answered rounds round i q text = elim (Bool-cases (text == "")) [
  | inl h ↦
      let next : OpenRound = record round { answers = delete_answer i round.answers } in
      rw (free_text, h)
        (
          next,
          ground (arith, lookup-insert round.request_id round.request_id next rounds),
          refl,
          refl,
          answer_of-delete_answer i q round.answers,
        )
  | inr h ↦
      let next : OpenRound = record round { answers = set_answer i (other text) round.answers } in
      rw (free_text, h)
        (
          next,
          ground (arith, lookup-insert round.request_id round.request_id next rounds),
          refl,
          refl,
          answer_of-set_answer i q (other text) round.answers,
        )
]

answer-Answered :
    (trim : String → String) (rounds : Rounds) (round : OpenRound) (event : FeishuCardActionEvent)
    → (q : ℕ) (found : Option (ℕ × AskUserQuestionSpec))
    → lookup round.request_id rounds ≡ some round
    → Answered
        (answer trim rounds round event found).0
        round
        q
        (chosen trim event q (answer_of q round.answers) found)
unfolding answer
answer-Answered trim rounds round event q none h = (round, h, refl, refl, refl)
answer-Answered trim rounds round event q (some (i, question)) h =
    elim (Bool-cases (event.action == pick_action)) [
      | inl p ↦
          rw (answer, p)
            (pick-Answered rounds round i q (item_or_none question.options event.option_index) h)
      | inr p ↦
          rw (answer, p)
            (free_text-Answered rounds round i q (trim (text_or_empty event.input_value)))
    ]

-- A click on a question of this round: neither of its two closing buttons.
abbrev pub IsAnswer : String → FeishuCardActionEvent → Type 0
IsAnswer request_id event =
    (event.request_id ≡ request_id)
    × ((event.action == submit_action) ≡ false)
    × ((event.action == cancel_action) ≡ false)

abbrev pub AllAnswers : String → List FeishuCardActionEvent → Type 0
AllAnswers request_id [] = Unit {0}
AllAnswers request_id (e ∷ es) = IsAnswer request_id e × AllAnswers request_id es

unfoldable pub apply_all : (String → String) → Rounds → List FeishuCardActionEvent → Rounds
apply_all trim rounds [] = rounds
apply_all trim rounds (e ∷ es) = apply_all trim (apply trim rounds e).0 es

-- The answer to question `q` after the clicks.
abbrev pub last_choice :
    (String → String)
    → List AskUserQuestionSpec
    → ℕ
    → Option AskUserAnswer
    → List FeishuCardActionEvent
    → Option AskUserAnswer
last_choice trim questions q current [] = current
last_choice trim questions q current (e ∷ es) =
    last_choice trim questions q (chosen trim e q current (item_or_none questions e.question_index))
      es

apply-Answered :
    (trim : String → String) (rounds : Rounds) (round : OpenRound) (event : FeishuCardActionEvent)
    (q : ℕ)
    → IsAnswer round.request_id event
    → lookup round.request_id rounds ≡ some round
    → Answered (apply trim rounds event).0 round q (
        chosen trim event q
          (answer_of q round.answers)
          (item_or_none round.questions event.question_index))
unfolding apply apply_round
apply-Answered trim rounds round event q is h =
    let found : lookup event.request_id rounds ≡ some round =
      ap (λ id. lookup id rounds) is.0 ∙ h in
    rw (apply, found, apply_round, is.1, is.2)
      (answer-Answered trim rounds round event q (item_or_none round.questions event.question_index)
        h)

-- After any clicks on the questions of a round in play it is still in play with its questions, and
-- the answer to each question is the last valid pick or text for it; a blank text takes it back.
pub last_choice_counts :
    (trim : String → String) (rounds : Rounds) (round : OpenRound) (q : ℕ)
    (es : List FeishuCardActionEvent)
    → lookup round.request_id rounds ≡ some round
    → AllAnswers round.request_id es
    → Answered
        (apply_all trim rounds es)
        round
        q
        (last_choice trim round.questions q (answer_of q round.answers) es)
unfolding apply_all
last_choice_counts trim rounds round q [] h all = (round, h, refl, refl, refl)
last_choice_counts trim rounds round q (e ∷ es) h all =
    let (after, found, same, questions, answered) = apply-Answered trim rounds round e q all.0 h in
    let next = (apply trim rounds e).0 in
    let there = ap (λ id. lookup id next) same ∙ found in
    let later =
      last_choice_counts trim next after q es there
        (subst (λ id. AllAnswers id es) (sym same) all.1) in
    (
      later.0,
      ap (λ id. lookup id (apply_all trim next es)) (sym same) ∙ later.1,
      later.2 ∙ same,
      later.3 ∙ questions,
      later.4
          ∙ ap (λ qs. last_choice trim qs q (answer_of q after.answers) es) questions
          ∙ ap (λ a. last_choice trim round.questions q a es) answered,
    )
