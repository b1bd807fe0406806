-- ===== src/Routing/Plan.antt =====
-- routing/index.ts: the reads of the committed document, and the decision on an inbound message.
use dreamux.Base.{
  String, Bool, true, false, not, ◌||◌, ◌&&◌, Option, none, some, List, [], ◌∷◌, if◌then◌else◌,
  ◌==◌, keep, find_first,
}
use dreamux.Routing.Target.{
  FeishuTarget, FeishuTargetKind, TargetKey, target_key, ◌=key=◌, resolution_chain,
  is_bindable_target,
}
use dreamux.Routing.Document.{FeishuBindingRecord, FeishuSpaceRecord, FeishuRoutingDocument}

pub data DispatcherReason : Type 0 where
  no_binding not_bindable : DispatcherReason

pub record FeishuRoutingPlanBound : Type 0 where
  pub team_name : String
  pub matched : FeishuTarget

pub data FeishuRoutingPlan : Type 0 where
  bound : FeishuRoutingPlanBound → FeishuRoutingPlan
  provision : FeishuSpaceRecord → FeishuRoutingPlan
  dispatcher : DispatcherReason → FeishuRoutingPlan

unfoldable pub find_binding : TargetKey → List FeishuBindingRecord → Option FeishuBindingRecord
find_binding key [] = none
find_binding key (row ∷ rows) =
    if target_key row.target =key= key then some row else find_binding key rows

unfoldable pub binding_for : FeishuRoutingDocument → FeishuTarget → Option FeishuBindingRecord
binding_for d target = find_binding (target_key target) d.bindings

unfoldable pub space_for_container : FeishuRoutingDocument → String → Option FeishuSpaceRecord
space_for_container d chat_id = find_first (λ row. row.container_chat_id == chat_id) d.spaces

unfoldable pub space_by_name : FeishuRoutingDocument → String → Option FeishuSpaceRecord
space_by_name d space_name = find_first (λ row. row.space_name == space_name) d.spaces

abbrev pub is_topic : FeishuTargetKind → Bool
is_topic FeishuTargetKind.topic = true
is_topic FeishuTargetKind.group = false
is_topic FeishuTargetKind.p2p = false

abbrev is_team : Option String → String → Bool
is_team none name = false
is_team (some t) name = name == t

unfoldable pub topic_bindings_for :
    FeishuRoutingDocument → String → Option String → List FeishuBindingRecord
topic_bindings_for d container_chat_id team_name =
    keep
      (λ row.
        is_topic row.target.kind
        && row.target.chat_id == container_chat_id
        && is_team team_name row.team_name)
      d.bindings

-- The loop of `boundPlan` over the resolution chain.
unfoldable pub bound_along :
    List FeishuBindingRecord → List FeishuTarget → Option FeishuRoutingPlanBound
bound_along bindings [] = none
bound_along bindings (candidate ∷ chain) = elim (find_binding (target_key candidate) bindings) [
  | some binding ↦ some (record { team_name = binding.team_name; matched = candidate })
  | none ↦ bound_along bindings chain
]

unfoldable pub bound_plan : List FeishuBindingRecord → FeishuTarget → Option FeishuRoutingPlanBound
unfolding bound_along
bound_plan bindings target = bound_along bindings (resolution_chain target)

abbrev pub serving_team : Option FeishuRoutingPlanBound → Option String
serving_team none = none
serving_team (some b) = some b.team_name

-- `plan` where no binding answers.
unfoldable pub unbound_plan : FeishuRoutingDocument → FeishuTarget → Bool → FeishuRoutingPlan
unbound_plan d target can_provision =
    if not (is_bindable_target target)
    then dispatcher not_bindable
    else (if not can_provision || not (is_topic target.kind)
        then dispatcher no_binding
        else elim (space_for_container d target.chat_id) [
          | none ↦ dispatcher no_binding
          | some space ↦ provision space
        ])

unfoldable pub plan : FeishuRoutingDocument → FeishuTarget → Bool → FeishuRoutingPlan
unfolding unbound_plan
plan d target can_provision = elim (bound_plan d.bindings target) [
  | some b ↦ bound b
  | none ↦ unbound_plan d target can_provision
]
