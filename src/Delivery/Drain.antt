-- ===== src/Delivery/Drain.antt =====
-- Running the tails until nothing waits. (completion-router/index.ts)
use dreamux.Base.{
  append_nil, append_assoc, ℕ, ◌≡◌, refl, sym, ap, ◌∙◌, String, false, List, [], ◌∷◌, ◌++◌, arith,
  some,
}
use dreamux.Delivery.Policy.{Operation, PreparedCompletionDelivery, Ending, deliver_prepared}
use dreamux.Delivery.Router.{
  Delivery, CompletionDeliveryPolicy, initial, take_delivery, is_waiting, run_delivery, Event, run,
}
use dreamux.Delivery.Taking.{news_of, first_free}
use dreamux.Delivery.News.{accepted_for, settled, all_news, run_delivery_news}
use dreamux.Delivery.Chained.{IsChained, initial-IsChained, run_delivery-IsChained}
use dreamux.Delivery.Requests.{run-IsChained}
use dreamux.Delivery.Order.{accepted, fifo_once}

-- Deliveries run one after another, with what their recipients do.
unfoldable pub drain :
    (Delivery → Operation PreparedCompletionDelivery)
    → List Delivery
    → CompletionDeliveryPolicy
    → CompletionDeliveryPolicy
drain prepare [] p = p
drain prepare (d ∷ ds) p = drain prepare ds (run_delivery p d.id (prepare d))

-- How deliveries end.
abbrev pub endings :
    ℕ → (Delivery → Operation PreparedCompletionDelivery) → List Delivery → List (Delivery × Ending)
endings timeout prepare [] = []
endings timeout prepare (d ∷ ds) =
    (d, (deliver_prepared timeout (prepare d)).ending) ∷ endings timeout prepare ds

run_first :
    (p : CompletionDeliveryPolicy) (prepare : Operation PreparedCompletionDelivery) (d : Delivery)
    (ds : List Delivery)
    → IsChained p
    → p.waiting ≡ d ∷ ds
    → run_delivery p d.id prepare ≡ record p {
      waiting = ds;
      ended = p.ended ++ (d, (deliver_prepared p.attempt_timeout_ms prepare).ending) ∷ [];
    }
unfolding run_delivery take_delivery
run_first p prepare d ds v e =
    let free : is_waiting d.previous p.waiting ≡ false =
      ap (λ w. is_waiting d.previous w) e ∙ first_free 0 p.next_id d ds (rw⁻¹ e v.rising) in
    let found : take_delivery d.id p.waiting ≡ some (d, ds) = ap (take_delivery d.id) e ∙ taken in
    rw (run_delivery, found, free) refl
  where
    taken : take_delivery d.id (d ∷ ds) ≡ some (d, ds)
    taken = ground arith

drain_waiting :
    (prepare : Delivery → Operation PreparedCompletionDelivery) (ds : List Delivery)
    (p : CompletionDeliveryPolicy)
    → IsChained p
    → p.waiting ≡ ds
    → ((drain prepare ds p).waiting ≡ [])
      × ((drain prepare ds p).ended ≡ p.ended ++ endings p.attempt_timeout_ms prepare ds)
      × ((r : String) → all_news r (drain prepare ds p) ≡ all_news r p)
unfolding drain
drain_waiting prepare [] p v e = (e, sym (append_nil p.ended), λ r. refl)
drain_waiting prepare (d ∷ ds) p v e =
    let one = run_first p (prepare d) d ds v e in
    let w = run_delivery-IsChained p d.id (prepare d) v in
    let rest =
      drain_waiting prepare ds (run_delivery p d.id (prepare d)) w (ap (λ q. q.waiting) one) in
    (
      rest.0,
      rest.1
          ∙ ap (λ q. q.ended ++ endings q.attempt_timeout_ms prepare ds) one
          ∙ append_assoc p.ended _ (endings p.attempt_timeout_ms prepare ds),
      λ r. rest.2 r ∙ run_delivery_news r p d.id (prepare d) v,
    )

-- Whatever came before, the deliveries that are not settled can all run, in the order of the
-- requests, whatever their recipients do: each ends as its own attempts say, none is left, and what
-- has then ended for a recipient is all that was accepted for it, once and in order.
pub drain_ends_all :
    (timeout : ℕ) (es : List Event) (prepare : Delivery → Operation PreparedCompletionDelivery)
    (r : String)
    → ((drain prepare (run (initial timeout) es).waiting (run (initial timeout) es)).waiting ≡ [])
      × ((drain prepare (run (initial timeout) es).waiting (run (initial timeout) es)).ended
          ≡ (run (initial timeout) es).ended
            ++ endings
                (run (initial timeout) es).attempt_timeout_ms
                prepare
                (run (initial timeout) es).waiting)
      × (news_of r (
            settled
              (drain prepare (run (initial timeout) es).waiting (run (initial timeout) es)).ended)
          ≡ accepted_for r (accepted false [] es))
drain_ends_all timeout es prepare r =
    let p = run (initial timeout) es in
    let drained =
      drain_waiting prepare p.waiting p
        (run-IsChained (initial timeout) es (initial-IsChained timeout)) refl in
    let done = news_of r (settled (drain prepare p.waiting p).ended) in
    (
      drained.0,
      drained.1,
      sym (append_nil done)
          ∙ ap (λ left. done ++ news_of r left) (sym drained.0)
          ∙ drained.2 r
          ∙ fifo_once timeout r es,
    )
