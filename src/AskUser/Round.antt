-- ===== src/AskUser/Round.antt =====
-- ask-user/registry.ts and cards/ask-user.ts: rounds, answers and settlements.
use Prim.Native.String.{◌++◌}
use dreamux.Base.{ℕ, zero, suc, String, Option, none, some, List, [], ◌∷◌, nat_eq, if◌then◌else◌}

pub record AskUserOption : Type 0 where
  pub label : String
  pub description : String

pub record AskUserQuestionSpec : Type 0 where
  pub header : String
  pub question : String
  pub options : List AskUserOption

pub data AskUserAnswer : Type 0 where
  option : ℕ → AskUserAnswer
  other : String → AskUserAnswer

-- `xs[i]`.
unfoldable pub item_at {ℓ} : {A : Type ℓ} → List A → ℕ → Option A
item_at [] i = none
item_at (x ∷ xs) zero = some x
item_at (x ∷ xs) (suc i) = item_at xs i

-- The Map from a question's index to its answer, in insertion order.
abbrev pub Answers : Type 0
Answers = List (ℕ × AskUserAnswer)

unfoldable pub answer_of : ℕ → Answers → Option AskUserAnswer
answer_of i [] = none
answer_of i (a ∷ rest) = if nat_eq a.0 i then some a.1 else answer_of i rest

unfoldable pub set_answer : ℕ → AskUserAnswer → Answers → Answers
set_answer i answer [] = (i, answer) ∷ []
set_answer i answer (a ∷ rest) =
    if nat_eq a.0 i then (i, answer) ∷ rest else a ∷ set_answer i answer rest

unfoldable pub delete_answer : ℕ → Answers → Answers
delete_answer i [] = []
delete_answer i (a ∷ rest) = if nat_eq a.0 i then delete_answer i rest else a ∷ delete_answer i rest

abbrev label_of : Option AskUserOption → Option String
label_of none = none
label_of (some o) = some o.label

unfoldable pub answer_label : AskUserQuestionSpec → Option AskUserAnswer → Option String
unfolding item_at
answer_label question none = none
answer_label question (some (option i)) = label_of (item_at question.options i)
answer_label question (some (other text)) = some text

pub record FeishuSentMessage : Type 0 where
  pub message_id : String
  pub chat_id : Option String
  pub thread_id : Option String

-- `object` tells this round from any other round object.
pub record OpenRound : Type 0 where
  pub object : ℕ
  pub request_id : String
  pub text : Option String
  pub questions : List AskUserQuestionSpec
  pub answers : Answers
  pub message_id : Option String
  pub chat_id : Option String
  pub thread_id : Option String

pub data Outcome : Type 0 where
  submitted cancelled expired : Outcome

-- The body for Core: for each question its header, its text and the chosen label.
pub data Body : Type 0 where
  submitted_text : List (String × String × Option String) → Body
  cancelled_text expired_text : Body

unfoldable pub answered_lines :
    Answers → ℕ → List AskUserQuestionSpec → List (String × String × Option String)
unfolding answer_of answer_label
answered_lines answers index [] = []
answered_lines answers index (q ∷ questions) =
    (q.header, q.question, answer_label q (answer_of index answers))
    ∷ answered_lines answers (suc index) questions

pub record AskUserSettlement : Type 0 where
  pub request_id : String
  pub outcome : Outcome
  pub text : Body
  pub source_id : String
  pub card_message_id : Option String
  pub chat_id : Option String
  pub thread_id : Option String
  pub operator_open_id : Option String

abbrev body_of : OpenRound → Outcome → Body
body_of round submitted = submitted_text (answered_lines round.answers 0 round.questions)
body_of round cancelled = cancelled_text
body_of round expired = expired_text

abbrev or_else : Option String → Option String → Option String
or_else none fallback = fallback
or_else (some a) fallback = some a

-- What `closeRound` reports; taking the round out of play is the registry's.
unfoldable pub settlement_of :
    OpenRound → Outcome → Option String → Option String → AskUserSettlement
unfolding answered_lines
settlement_of round outcome card_message_id operator_open_id = record {
  request_id = round.request_id;
  outcome = outcome;
  text = body_of round outcome;
  source_id = "ask_user_question:" ++ round.request_id;
  card_message_id = or_else card_message_id round.message_id;
  chat_id = round.chat_id;
  thread_id = round.thread_id;
  operator_open_id = operator_open_id;
}
