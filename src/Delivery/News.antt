-- ===== src/Delivery/News.antt =====
-- The news of each recipient, ended or not. (completion-router/index.ts)
use dreamux.Base.{
  append_assoc, ℕ, ◌≡◌, refl, sym, ap, ◌∙◌, String, false, none, some, List, [], ◌∷◌, ◌++◌,
  if◌then◌else◌, ◌==◌, arith, Option-cases, inl, inr, Bool-cases,
}
use dreamux.Base.Dict.{lookup}
use dreamux.Delivery.Policy.{Ending, Operation, PreparedCompletionDelivery, deliver_prepared}
use dreamux.Delivery.Router.{
  Delivery, CompletionDeliveryPolicy, enqueue, take_delivery, is_waiting, run_delivery,
}
use dreamux.Delivery.Taking.{news_of, IsFirst, take_delivery-IsFirst, take_other}
use dreamux.Delivery.Chained.{IsChained}

abbrev pub accepted_for : String → List (String × String) → List String
accepted_for r [] = []
accepted_for r (a ∷ rest) = if a.0 == r then a.1 ∷ accepted_for r rest else accepted_for r rest

news_of-append :
    (r : String) (ds es : List Delivery) → news_of r (ds ++ es) ≡ news_of r ds ++ news_of r es
news_of-append r [] es = refl
news_of-append r (d ∷ ds) es = ground (arith, news_of-append r ds es)

-- The deliveries that ended.
abbrev pub settled : List (Delivery × Ending) → List Delivery
settled [] = []
settled (e ∷ ended) = e.0 ∷ settled ended

pub settled-append :
    (ended : List (Delivery × Ending)) (more : List (Delivery × Ending))
    → settled (ended ++ more) ≡ settled ended ++ settled more
settled-append [] more = refl
settled-append (e ∷ ended) more = ap (λ ds. e.0 ∷ ds) (settled-append ended more)

-- All the news of a recipient: those that ended, in the order in which they did, then the others.
abbrev pub all_news : String → CompletionDeliveryPolicy → List String
all_news r p = news_of r (settled p.ended) ++ news_of r p.waiting

taken_news :
    (r : String) (p : CompletionDeliveryPolicy) (id : ℕ) (taken : Delivery) (others : List Delivery)
    → take_delivery id p.waiting ≡ some (taken, others)
    → is_waiting taken.previous p.waiting ≡ false
    → IsChained p
    → news_of r p.waiting ≡ news_of r (taken ∷ []) ++ news_of r others
taken_news r p id taken others found free v = elim (Bool-cases (taken.recipient == r)) [
  | inl same ↦
      let first : IsFirst r none p.waiting taken others =
        take_delivery-IsFirst r none id p.waiting taken others p.waiting found (v.linked r) same
          free (λ j h. ground arith) (λ j h. h) in
      ground (arith, first.news)
  | inr other ↦ ground (arith, take_other r none id p.waiting taken others found other)
]

pub run_delivery_news :
    (r : String) (p : CompletionDeliveryPolicy) (id : ℕ)
    (prepare : Operation PreparedCompletionDelivery)
    → IsChained p
    → all_news r (run_delivery p id prepare) ≡ all_news r p
unfolding run_delivery
run_delivery_news r p id prepare v = elim (Option-cases (take_delivery id p.waiting)) [
  | inl e ↦ rw (run_delivery, e) refl
  | inr ((taken, others), e) ↦ elim (Bool-cases (is_waiting taken.previous p.waiting)) [
    | inl blocked ↦ rw (run_delivery, e, blocked) refl
    | inr free ↦
        let end = (deliver_prepared p.attempt_timeout_ms prepare).ending in
        let moved : news_of r (settled (p.ended ++ (taken, end) ∷ [])) ++ news_of r others
            ≡ all_news r p =
          ap (λ ds. news_of r ds ++ news_of r others) (settled-append p.ended ((taken, end) ∷ []))
          ∙ ap (λ news. news ++ news_of r others) (news_of-append r (settled p.ended) (taken ∷ []))
          ∙ append_assoc (news_of r (settled p.ended)) (news_of r (taken ∷ [])) (news_of r others)
          ∙ ap (λ news. news_of r (settled p.ended) ++ news)
              (sym (taken_news r p id taken others e free v)) in
        rw (run_delivery, e, free) moved
  ]
]

pub enqueue_news :
    (r : String) (p : CompletionDeliveryPolicy) (initiator completion : String)
    → all_news r (enqueue p initiator completion)
      ≡ all_news r p ++ accepted_for r ((initiator, completion) ∷ [])
unfolding enqueue
enqueue_news r p initiator completion =
    let delivery : Delivery = record {
      id = p.next_id;
      previous = lookup initiator p.recipient_tails;
      recipient = initiator;
      completion = completion;
    } in
    let done = news_of r (settled p.ended) in
    ap (λ news. done ++ news) (news_of-append r p.waiting (delivery ∷ []))
    ∙ sym (append_assoc done (news_of r p.waiting) (news_of r (delivery ∷ [])))
