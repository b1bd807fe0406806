-- ===== src/Routing/History.antt =====
-- Any sequence of changes to the routing document. (routing/index.ts)
use dreamux.Base.{ℕ, ◌≡◌, refl, String, Option, List, [], ◌∷◌}
use dreamux.Base.Result.{Result, returned, thrown}
use dreamux.Routing.Target.{FeishuTarget}
use dreamux.Routing.Document.{FeishuRoutingDocument, Refusal, empty_routing_document}
use dreamux.Routing.Bindings.{BindInput, bind, fill_topic_root, unbind, forget_team}
use dreamux.Routing.Policy.{SpaceInput, bind_space, unbind_space, subscribe, unsubscribe}
use dreamux.Routing.Invariant.{
  IsConsistent, empty-IsConsistent, bind-IsConsistent, fill-IsConsistent, unbind-IsConsistent,
  forget-IsConsistent, bind_space-IsConsistent, unbind_space-IsConsistent, subscribe-IsConsistent,
  unsubscribe-IsConsistent,
}

pub data Operation : Type 0 where
  binds : BindInput → Operation
  fills : FeishuTarget → String → Operation
  unbinds : FeishuTarget → Option String → Operation
  forgets : String → Operation
  binds_space : SpaceInput → Operation
  unbinds_space : String → Operation
  subscribes : String → String → Option String → Operation
  unsubscribes : String → Option String → Operation

-- A refused change leaves the document as it was.
abbrev pub after :
    {R : Type 0}
    → FeishuRoutingDocument
    → Result Refusal (FeishuRoutingDocument × R)
    → FeishuRoutingDocument
after d (returned r) = r.0
after d (thrown _) = d

unfoldable pub step :
    (String → String) → FeishuRoutingDocument → ℕ × Operation → FeishuRoutingDocument
step space_id d (now, binds input) = after d (bind input d now)
step space_id d (now, fills target root) = after d (fill_topic_root target root d now)
step space_id d (now, unbinds target owner) = after d (unbind target owner d now)
step space_id d (now, forgets team_name) = after d (forget_team team_name d now)
step space_id d (now, binds_space input) = after d (bind_space space_id input d now)
step space_id d (now, unbinds_space space_name) = after d (unbind_space space_name d now)
step space_id d (now, subscribes file_token file_type team_name) =
    after d (subscribe file_token file_type team_name d now)
step space_id d (now, unsubscribes file_token team_name) =
    after d (unsubscribe file_token team_name d now)

unfoldable pub run :
    (String → String) → FeishuRoutingDocument → List (ℕ × Operation) → FeishuRoutingDocument
run space_id d [] = d
run space_id d (o ∷ os) = run space_id (step space_id d o) os

after-IsConsistent :
    {R : Type 0} (d : FeishuRoutingDocument) (r : Result Refusal (FeishuRoutingDocument × R))
    → IsConsistent d
    → ((x : FeishuRoutingDocument × R) → r ≡ returned x → IsConsistent x.0)
    → IsConsistent (after d r)
after-IsConsistent d (returned x) v k = k x refl
after-IsConsistent d (thrown e) v k = v

module _ (space_id : String → String) where
  step-IsConsistent :
      (d : FeishuRoutingDocument) (o : ℕ × Operation)
      → IsConsistent d
      → IsConsistent (step space_id d o)
  unfolding step
  step-IsConsistent d (now, binds input) v =
      after-IsConsistent d _ v λ x h. bind-IsConsistent input d now h v
  step-IsConsistent d (now, fills target root) v =
      after-IsConsistent d _ v λ x h. fill-IsConsistent target root d now h v
  step-IsConsistent d (now, unbinds target owner) v =
      after-IsConsistent d _ v λ x h. unbind-IsConsistent target owner d now h v
  step-IsConsistent d (now, forgets team_name) v =
      after-IsConsistent d _ v λ x h. forget-IsConsistent team_name d now h v
  step-IsConsistent d (now, binds_space input) v =
      after-IsConsistent d _ v λ x h. bind_space-IsConsistent space_id input d now h v
  step-IsConsistent d (now, unbinds_space space_name) v =
      after-IsConsistent d _ v λ x h. unbind_space-IsConsistent space_name d now h v
  step-IsConsistent d (now, subscribes file_token file_type team_name) v =
      after-IsConsistent d _ v
        λ x h. subscribe-IsConsistent file_token file_type team_name d now h v
  step-IsConsistent d (now, unsubscribes file_token team_name) v =
      after-IsConsistent d _ v λ x h. unsubscribe-IsConsistent file_token team_name d now h v

  run_from-IsConsistent :
      (d : FeishuRoutingDocument) (os : List (ℕ × Operation))
      → IsConsistent d
      → IsConsistent (run space_id d os)
  unfolding run
  run_from-IsConsistent d [] v = v
  run_from-IsConsistent d (o ∷ os) v =
      run_from-IsConsistent (step space_id d o) os (step-IsConsistent d o v)

  -- After any sequence of changes to an empty document, refused ones included, no target has two
  -- rows, no id and no name has two spaces, and no chat is both bound as a whole and a space.
  pub run-IsConsistent :
      (created : ℕ) (os : List (ℕ × Operation))
      → IsConsistent (run space_id (empty_routing_document created) os)
  run-IsConsistent created os = run_from-IsConsistent _ os (empty-IsConsistent created)
