-- ===== src/Leases/Receipt.antt =====
-- Publishes of the current generation on an idle store. (agent/runtime-state.ts)
use dreamux.Base.{
  ℕ, ◌≡◌, refl, ap, ◌∙◌, sym, true, false, Option, none, List, [], ◌∷◌, ◌++◌, append_nil,
  append_assoc, arith,
}
use dreamux.Leases.State.{
  AgentRuntimeStatus, AgentRuntimeStateUpdate, AgentEntityIdentity, Publish, AgentRuntimeStateStore,
  publish, merge_identity, identity_patch, has_empty_session, recorded_status, begin_write,
  end_write, settle_next, Event, begins, settles, publishes, ends, step, run,
}

-- What the updates make of an identity and of the runtime status, one after the other.
abbrev pub merged : AgentEntityIdentity → List AgentRuntimeStateUpdate → AgentEntityIdentity
merged identity [] = identity
merged identity (u ∷ us) = merged (merge_identity identity (identity_patch u)) us

abbrev pub last_status :
    Option AgentRuntimeStatus → List AgentRuntimeStateUpdate → Option AgentRuntimeStatus
last_status last [] = last
last_status last (u ∷ us) = last_status (recorded_status u last) us

abbrev pub AllNamed : List AgentRuntimeStateUpdate → Type 0
AllNamed [] = Unit {0}
AllNamed (u ∷ us) = (has_empty_session u ≡ false) × AllNamed us

abbrev pub calls : ℕ → List AgentRuntimeStateUpdate → List Event
calls lease [] = []
calls lease (u ∷ us) = publishes lease u ∷ calls lease us

-- Each write begins, succeeds and settles.
abbrev pub rounds : List AgentRuntimeStateUpdate → List Event
rounds [] = []
rounds (u ∷ us) = begins ∷ ends true ∷ settles ∷ rounds us

abbrev pub jobs : ℕ → List AgentRuntimeStateUpdate → List Publish
jobs lease [] = []
jobs lease (u ∷ us) = record { lease = lease; update = u } ∷ jobs lease us

run-append :
    (s : AgentRuntimeStateStore) (es fs : List Event) → run s (es ++ fs) ≡ run (run s es) fs
unfolding run
run-append s [] fs = refl
run-append s (e ∷ es) fs = run-append (step s e) es fs

publish-returned :
    (s : AgentRuntimeStateStore) (u : AgentRuntimeStateUpdate)
    → has_empty_session u ≡ false
    → step s (publishes s.current_lease u)
      ≡ record s { waiting = s.waiting ++ record { lease = s.current_lease; update = u } ∷ [] }
unfolding step publish
publish-returned s u h = ground arith

abbrev queued : AgentRuntimeStateStore → List Publish → AgentRuntimeStateStore
queued s waiting = record s { waiting = waiting }

run-calls :
    (s : AgentRuntimeStateStore) (us : List AgentRuntimeStateUpdate)
    → AllNamed us
    → run s (calls s.current_lease us) ≡ record s { waiting = s.waiting ++ jobs s.current_lease us }
unfolding run
run-calls s [] named = ap (queued s) (sym (append_nil s.waiting))
run-calls s (u ∷ us) named =
    let job : Publish = record { lease = s.current_lease; update = u } in
    let next = queued s (s.waiting ++ job ∷ []) in
    ap (λ q. run q (calls s.current_lease us)) (publish-returned s u named.0)
    ∙ run-calls next us named.1
    ∙ ap (queued s) (append_assoc s.waiting (job ∷ []) (jobs s.current_lease us))

abbrev written :
    AgentRuntimeStateStore → AgentRuntimeStateUpdate → List Publish → AgentRuntimeStateStore
written s u rest = record s {
  waiting = rest;
  identity = merge_identity s.identity (identity_patch u);
  last_runtime_status = recorded_status u s.last_runtime_status;
}

one_round :
    (s : AgentRuntimeStateStore) (u : AgentRuntimeStateUpdate) (rest : List Publish)
    → s.writing ≡ none
    → s.durable ≡ []
    → s.waiting ≡ record { lease = s.current_lease; update = u } ∷ rest
    → settle_next (end_write (begin_write s) true) ≡ written s u rest
unfolding begin_write end_write settle_next
one_round s u rest idle settled queue = ground arith

run-rounds :
    (s : AgentRuntimeStateStore) (us : List AgentRuntimeStateUpdate)
    → s.writing ≡ none
    → s.durable ≡ []
    → s.waiting ≡ jobs s.current_lease us
    → run s (rounds us) ≡ record s {
      waiting = [];
      identity = merged s.identity us;
      last_runtime_status = last_status s.last_runtime_status us;
    }
unfolding run step begin_write end_write settle_next
run-rounds s [] idle settled empty = ground arith
run-rounds s (u ∷ us) idle settled queue =
    let rest = jobs s.current_lease us in
    ap (λ q. run q (rounds us)) (one_round s u rest idle settled queue)
    ∙ run-rounds (written s u rest) us idle settled refl

-- Facts that the current generation publishes on an idle store are merged in the order of the calls,
-- and the runtime status is the last one published, once each write has begun, succeeded and settled.
pub publishes_in_receipt_order :
    (s : AgentRuntimeStateStore) (us : List AgentRuntimeStateUpdate)
    → s.waiting ≡ []
    → s.writing ≡ none
    → s.durable ≡ []
    → AllNamed us
    → run s (calls s.current_lease us ++ rounds us) ≡ record s {
      waiting = [];
      identity = merged s.identity us;
      last_runtime_status = last_status s.last_runtime_status us;
    }
publishes_in_receipt_order s us empty idle settled named =
    let lease = s.current_lease in
    let called = run-calls s us named ∙ ap (λ w. queued s (w ++ jobs lease us)) empty in
    run-append s (calls lease us) (rounds us)
    ∙ ap (λ q. run q (rounds us)) called
    ∙ run-rounds (queued s (jobs lease us)) us idle settled refl
