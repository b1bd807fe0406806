-- ===== src/Delivery/Requests.antt =====
-- What a request does to the tails, and the tails after a run. (completion-router/index.ts)
use dreamux.Base.{
  ℕ, ◌≡◌, refl, String, true, false, Option, none, some, List, [], ◌∷◌, arith, Option-cases, inl,
  inr, Bool-cases,
}
use dreamux.Base.Dict.{lookup, insert}
use dreamux.Delivery.Router.{
  CompletionDeliveryPolicy, enqueue, deliver_runtime, run_delivery, Event, requests, runs, closes,
  step, run,
}
use dreamux.Delivery.Chained.{IsChained, enqueue-IsChained, run_delivery-IsChained}

pub fenced :
    (p : CompletionDeliveryPolicy) (initiator : String) (token : Option String)
    (completion : String)
    → p.is_closing ≡ true
    → (deliver_runtime p initiator token completion).0 ≡ p
unfolding deliver_runtime
fenced p initiator none completion e = ground arith
fenced p initiator (some token) completion e = ground arith

pub unfolded :
    (p : CompletionDeliveryPolicy) (initiator completion : String)
    → p.is_closing ≡ false
    → (deliver_runtime p initiator none completion).0 ≡ enqueue p initiator completion
unfolding deliver_runtime
unfolded p initiator completion e = ground arith

pub folded :
    (p : CompletionDeliveryPolicy) (initiator token completion : String) (delivery : ℕ)
    → lookup token p.completions ≡ some delivery
    → (deliver_runtime p initiator (some token) completion).0 ≡ p
unfolding deliver_runtime
folded p initiator token completion delivery e = elim (Bool-cases p.is_closing) [
  | inl h ↦ fenced p initiator (some token) completion h
  | inr h ↦ rw (deliver_runtime, h, e) refl
]

pub first_of_token :
    (p : CompletionDeliveryPolicy) (initiator token completion : String)
    → p.is_closing ≡ false
    → lookup token p.completions ≡ none
    → (deliver_runtime p initiator (some token) completion).0
      ≡ record (enqueue p initiator completion) {
        completions = insert token p.next_id p.completions;
      }
unfolding deliver_runtime
first_of_token p initiator token completion h e = rw (deliver_runtime, h, e) refl

request-IsChained :
    (p : CompletionDeliveryPolicy) (initiator : String) (token : Option String)
    (completion : String)
    → IsChained p
    → IsChained (deliver_runtime p initiator token completion).0
request-IsChained p i none c v = elim (Bool-cases p.is_closing) [
  | inl closing ↦ rw (fenced p i none c closing) v
  | inr admits ↦ rw (unfolded p i c admits) (enqueue-IsChained p i c v)
]
request-IsChained p i (some token) c v = elim (Bool-cases p.is_closing) [
  | inl closing ↦ rw (fenced p i (some token) c closing) v
  | inr admits ↦ elim (Option-cases (lookup token p.completions)) [
    | inl new ↦
        let w = enqueue-IsChained p i c v in
        rw (first_of_token p i token c admits new)
          record { linked = w.linked; tailed = w.tailed; rising = w.rising; below = w.below }
    | inr (delivery, known) ↦ rw (folded p i token c delivery known) v
  ]
]

pub run-IsChained :
    (p : CompletionDeliveryPolicy) (es : List Event) → IsChained p → IsChained (run p es)
unfolding run step
run-IsChained p [] v = v
run-IsChained p (requests initiator token completion ∷ es) v =
    run-IsChained (deliver_runtime p initiator token completion).0 es
      (request-IsChained p initiator token completion v)
run-IsChained p (runs id prepare ∷ es) v =
    run-IsChained (run_delivery p id prepare) es (run_delivery-IsChained p id prepare v)
run-IsChained p (closes ∷ es) v =
    run-IsChained (record p { is_closing = true }) es
      (record { linked = v.linked; tailed = v.tailed; rising = v.rising; below = v.below })
