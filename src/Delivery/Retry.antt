-- ===== src/Delivery/Retry.antt =====
-- When a delivery is attempted again. (completion-router/index.ts)
use dreamux.Base.{
  ℕ, zero, suc, ◌+◌, ◌≤◌, ◌<◌, ◌≡◌, refl, sym, subst, ap, ◌∙◌, ◌↔◌, ◌⊎◌, inl, inr, String, arith,
}
use dreamux.Delivery.Policy.{
  CompletionDeliveryResult, Operation, DeadlineResult, settle_within_deadline, fulfilled, rejected,
  timed_out, accepted, failed, unsupported, ambiguous, PreparedCompletionDelivery, Report,
  delivered, attempt_once, attempts, submit_prepared, deliver_prepared, max_delivery_attempts,
}

-- The i-th submit proved, in time, that nothing was admitted.
abbrev pub Refused : PreparedCompletionDelivery → ℕ → ℕ → Type 0
Refused submit timeout_ms i =
    (e : String) × (settle_within_deadline (submit i) timeout_ms ≡ fulfilled (failed e))

result_cases :
    (d : DeadlineResult CompletionDeliveryResult) (attempt : ℕ) (again : Report)
    → (((e : String) × (d ≡ fulfilled (failed e))) × (attempt_once d attempt again ≡ again))
      ⊎ (((attempt_once d attempt again).submits ≡ attempt)
          × (((attempt_once d attempt again).ending ≡ delivered) ↔ (d ≡ fulfilled accepted)))
unfolding attempt_once
result_cases (fulfilled (failed e)) attempt again = inl ((e, refl), refl)
result_cases (fulfilled accepted) attempt again = ground arith
result_cases (fulfilled (unsupported e)) attempt again = ground arith
result_cases (fulfilled (ambiguous e)) attempt again = ground arith
result_cases (rejected e) attempt again = ground arith
result_cases timed_out attempt again = ground arith

attempts_bounds :
    (submit : PreparedCompletionDelivery) (timeout_ms attempt left : ℕ)
    → attempt + left ≡ suc max_delivery_attempts
    → 0 < attempt
    → (attempts submit timeout_ms attempt left).submits ≤ max_delivery_attempts
unfolding attempts
attempts_bounds submit timeout_ms attempt zero h p = ground arith
attempts_bounds submit timeout_ms attempt (suc left) h p =
    let rest = attempts_bounds submit timeout_ms (suc attempt) left (omega arith) (omega arith) in
    elim (result_cases (settle_within_deadline (submit attempt) timeout_ms) attempt
      (attempts submit timeout_ms (suc attempt) left)) [
        | inl (e, same) ↦ rw (same) rest
        | inr (last, ending) ↦ rw (last) (omega arith)
      ]

le_cases : (m n : ℕ) → m ≤ n → (n ≡ m) ⊎ (m < n)
le_cases m n h = ground arith

attempts-Refused :
    (submit : PreparedCompletionDelivery) (timeout_ms attempt left : ℕ)
    → (i : ℕ) → attempt ≤ i
    → i < (attempts submit timeout_ms attempt left).submits
    → attempt + left ≡ suc max_delivery_attempts
    → Refused submit timeout_ms i
unfolding attempts
attempts-Refused submit timeout_ms attempt zero i le lt h = ground arith
attempts-Refused submit timeout_ms attempt (suc left) i le lt h =
    elim (result_cases (settle_within_deadline (submit attempt) timeout_ms) attempt
      (attempts submit timeout_ms (suc attempt) left)) [
        | inl (e, same) ↦
            let later : i < (attempts submit timeout_ms (suc attempt) left).submits =
              subst (λ r. i < r.submits) same lt in
            elim (le_cases attempt i le) [
              | inl here ↦ (e.0, ap (λ j. settle_within_deadline (submit j) timeout_ms) here ∙ e.1)
              | inr beyond ↦
                  attempts-Refused submit timeout_ms (suc attempt) left i beyond later (omega arith)
            ]
        | inr (last, ending) ↦ ground arith
      ]

attempts-delivered :
    (submit : PreparedCompletionDelivery) (timeout_ms attempt left : ℕ)
    → attempt + left ≡ suc max_delivery_attempts
    → 0 < left
    → ((attempts submit timeout_ms attempt left).ending ≡ delivered) ↔ (
        settle_within_deadline (submit (attempts submit timeout_ms attempt left).submits) timeout_ms
        ≡ fulfilled accepted)
unfolding attempts
attempts-delivered submit timeout_ms attempt zero h p = elim p [ ]
attempts-delivered submit timeout_ms attempt (suc zero) h p =
    let third : attempt ≡ max_delivery_attempts = omega arith in
    elim (result_cases (settle_within_deadline (submit attempt) timeout_ms) attempt
      (attempts submit timeout_ms (suc attempt) zero)) [
        | inl (e, same) ↦
            let refused =
              ap (λ j. settle_within_deadline (submit j) timeout_ms) (sym third) ∙ e.1 in
            rw (same) (ground arith)
        | inr (last, ending) ↦ rw (last) ending
      ]
attempts-delivered submit timeout_ms attempt (suc (suc left)) h p =
    elim (result_cases (settle_within_deadline (submit attempt) timeout_ms) attempt
      (attempts submit timeout_ms (suc attempt) (suc left))) [
        | inl (e, same) ↦ rw (same) (
            attempts-delivered submit timeout_ms (suc attempt) (suc left) (omega arith)
              (omega arith))
        | inr (last, ending) ↦ rw (last) ending
      ]

-- A recipient that prepared in time is asked at most three times, and told again only where each
-- earlier answer proved, in time, that nothing was admitted: no timeout, throw, unsupported or
-- ambiguous answer is ever retried.
pub submits-Refused :
    (timeout_ms : ℕ) (prepare : Operation PreparedCompletionDelivery)
    → (submit : PreparedCompletionDelivery)
    → settle_within_deadline prepare timeout_ms ≡ fulfilled submit
    → (i : ℕ) → 0 < i
    → i < (deliver_prepared timeout_ms prepare).submits
    → Refused submit timeout_ms i
      × ((deliver_prepared timeout_ms prepare).submits ≤ max_delivery_attempts)
unfolding deliver_prepared
submits-Refused timeout_ms prepare submit prepared i positive lt =
    let called : (attempts submit timeout_ms 1 max_delivery_attempts).submits
        ≡ (deliver_prepared timeout_ms prepare).submits =
      ap (λ d. (submit_prepared timeout_ms d).submits) (sym prepared) in
    (
      attempts-Refused submit timeout_ms 1 max_delivery_attempts i positive
          (subst (λ k. i < k) (sym called) lt) refl,
      subst (λ k. k ≤ max_delivery_attempts) called
          (attempts_bounds submit timeout_ms 1 max_delivery_attempts refl (omega arith)),
    )

-- A delivery to a recipient that prepared in time ends as delivered exactly when its last submit
-- was, in time, accepted.
pub deliver_prepared-delivered :
    (timeout_ms : ℕ) (prepare : Operation PreparedCompletionDelivery)
    → (submit : PreparedCompletionDelivery)
    → settle_within_deadline prepare timeout_ms ≡ fulfilled submit
    → ((deliver_prepared timeout_ms prepare).ending ≡ delivered) ↔ (
        settle_within_deadline (submit (deliver_prepared timeout_ms prepare).submits) timeout_ms
        ≡ fulfilled accepted)
unfolding deliver_prepared
deliver_prepared-delivered timeout_ms prepare submit prepared =
    rw (prepared) (attempts-delivered submit timeout_ms 1 max_delivery_attempts refl (omega arith))
