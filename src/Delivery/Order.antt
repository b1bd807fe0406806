-- ===== src/Delivery/Order.antt =====
-- The order of the news of each recipient. (completion-router/index.ts)
use dreamux.Base.{
  append_nil, append_assoc, ℕ, ◌≡◌, refl, sym, ap, ◌∙◌, String, Bool, true, false, ◌||◌, Option,
  none, some, List, [], ◌∷◌, ◌++◌, if◌then◌else◌, includes, arith, Option-cases, inl, inr,
  Bool-cases,
}
use dreamux.Base.Dict.{lookup, insert, lookup-insert}
use dreamux.Delivery.Policy.{Operation, PreparedCompletionDelivery}
use dreamux.Delivery.Router.{
  CompletionDeliveryPolicy, initial, enqueue, run_delivery, Event, requests, runs, closes, step,
  run,
}
use dreamux.Delivery.Taking.{news_of}
use dreamux.Delivery.News.{accepted_for, settled, all_news, run_delivery_news, enqueue_news}
use dreamux.Delivery.Requests.{fenced, unfolded, folded, first_of_token}
use dreamux.Delivery.Chained.{
  IsChained, initial-IsChained, enqueue-IsChained, run_delivery-IsChained,
}

-- What the router promises of the requests alone: nothing that is requested once the fence is up,
-- and of the requests with one token the first.
abbrev pub accepted : Bool → List String → List Event → List (String × String)
accepted closing seen [] = []
accepted closing seen (requests initiator none completion ∷ es) =
    let rest = accepted closing seen es in if closing then rest else (initiator, completion) ∷ rest
accepted closing seen (requests initiator (some token) completion ∷ es) =
    let refused = accepted closing seen es in
    let rest = accepted closing (token ∷ seen) es in
    if closing || includes token seen then refused else (initiator, completion) ∷ rest
accepted closing seen (runs id prepare ∷ es) = accepted closing seen es
accepted closing seen (closes ∷ es) = accepted true seen es

abbrev is_some {ℓ} : {A : Type ℓ} → Option A → Bool
is_some none = false
is_some (some a) = true

accepted_for-cons :
    (r : String) (a : String × String) (rest : List (String × String))
    → accepted_for r (a ∷ rest) ≡ accepted_for r (a ∷ []) ++ accepted_for r rest
accepted_for-cons r a rest = ground arith

run_delivery_keeps :
    (p : CompletionDeliveryPolicy) (id : ℕ) (prepare : Operation PreparedCompletionDelivery)
    → ((run_delivery p id prepare).is_closing ≡ p.is_closing)
      × ((run_delivery p id prepare).completions ≡ p.completions)
unfolding run_delivery
run_delivery_keeps p id prepare = ground arith

-- One more accepted request, and the requests after it.
then_news :
    (r : String) (news known : List String) (a : String × String) (rest : List (String × String))
    → known ≡ news ++ accepted_for r (a ∷ [])
    → known ++ accepted_for r rest ≡ news ++ accepted_for r (a ∷ rest)
then_news r news known a rest h =
    ap (λ k. k ++ accepted_for r rest) h
    ∙ append_assoc news (accepted_for r (a ∷ [])) (accepted_for r rest)
    ∙ ap (λ k. news ++ k) (sym (accepted_for-cons r a rest))

abbrev Folds : List String → CompletionDeliveryPolicy → Type 0
Folds seen p = (token : String) → includes token seen ≡ is_some (lookup token p.completions)

folds_next :
    (seen : List String) (token : String) (delivery : ℕ) (completions : List (String × ℕ))
    → ((t : String) → includes t seen ≡ is_some (lookup t completions))
    → (t : String)
    → includes t (token ∷ seen) ≡ is_some (lookup t (insert token delivery completions))
folds_next seen token delivery completions h t =
    ground (arith, h t, lookup-insert token t delivery completions)

run_news :
    (r : String) (p : CompletionDeliveryPolicy) (seen : List String) (es : List Event)
    → IsChained p
    → Folds seen p
    → all_news r (run p es) ≡ all_news r p ++ accepted_for r (accepted p.is_closing seen es)
unfolding run step enqueue
run_news r p seen [] v h = sym (append_nil (all_news r p))
run_news r p seen (requests i none c ∷ es) v h =
    let after : CompletionDeliveryPolicy → List String = λ q. all_news r (run q es) in
    let q = enqueue p i c in
    elim (Bool-cases p.is_closing) [
      | inl e ↦
          let skipped = ap after (fenced p i none c e) ∙ run_news r p seen es v h in ground arith
      | inr e ↦
          let more =
            ap after (unfolded p i c e)
            ∙ run_news r q seen es (enqueue-IsChained p i c v) h
            ∙ then_news r (all_news r p) (all_news r q) (i, c) (accepted p.is_closing seen es)
                (enqueue_news r p i c) in
          ground arith
    ]
run_news r p seen (requests i (some t) c ∷ es) v h =
    let after : CompletionDeliveryPolicy → List String = λ q. all_news r (run q es) in
    let q : CompletionDeliveryPolicy = record (enqueue p i c) {
      completions = insert t p.next_id p.completions;
    } in
    let w = enqueue-IsChained p i c v in
    let chained : IsChained q = record {
      linked = w.linked;
      tailed = w.tailed;
      rising = w.rising;
      below = w.below;
    } in
    let known = h t in
    elim (Bool-cases p.is_closing) [
      | inl e ↦
          let skipped = ap after (fenced p i (some t) c e) ∙ run_news r p seen es v h in
          ground arith
      | inr e ↦ elim (Option-cases (lookup t p.completions)) [
        | inl l ↦
            let more =
              ap after (first_of_token p i t c e l)
              ∙ run_news r q (t ∷ seen) es chained (folds_next seen t p.next_id p.completions h)
              ∙ then_news r (all_news r p) (all_news r q) (i, c)
                  (accepted p.is_closing (t ∷ seen) es) (enqueue_news r p i c) in
            ground arith
        | inr (d, l) ↦
            let skipped = ap after (folded p i t c d l) ∙ run_news r p seen es v h in ground arith
      ]
    ]
run_news r p seen (runs id prepare ∷ es) v h =
    let q = run_delivery p id prepare in
    let kept = run_delivery_keeps p id prepare in
    let same : Folds seen q = λ t. h t ∙ ap (λ cs. is_some (lookup t cs)) (sym kept.1) in
    run_news r q seen es (run_delivery-IsChained p id prepare v) same
    ∙ rw (run_delivery_news r p id prepare v, kept.0) refl
run_news r p seen (closes ∷ es) v h =
    run_news r (record p { is_closing = true }) seen es
      (record { linked = v.linked; tailed = v.tailed; rising = v.rising; below = v.below }) h

-- Whatever is requested, whichever deliveries are tried, and whether they deliver or drop: what has
-- ended for a recipient, in the order in which it did, followed by what is not settled, is what was
-- accepted for it, in the order of the requests. A token is accepted once, and nothing is accepted
-- behind the fence.
pub fifo_once :
    (timeout : ℕ) (r : String) (es : List Event)
    → news_of r (settled (run (initial timeout) es).ended)
        ++ news_of r (run (initial timeout) es).waiting
      ≡ accepted_for r (accepted false [] es)
unfolding initial lookup
fifo_once timeout r es = run_news r (initial timeout) [] es (initial-IsChained timeout) (λ t. refl)
