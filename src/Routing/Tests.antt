-- ===== src/Routing/Tests.antt =====
-- The routing properties at one chat with a topic of its own.
use dreamux.Base.{
  ℕ, ◌≡◌, ◌≢◌, refl, String, Bool, true, false, none, some, List, [], ◌∷◌, ◌==◌, String-discrete,
  keep,
}
use dreamux.Base.Result.{returned, thrown}
use dreamux.Routing.Target.{
  FeishuTarget, FeishuTargetKind, target_key, TargetKey-discrete, resolution_chain, containing_chat,
  is_bindable_target,
}
use dreamux.Routing.Document.{
  FeishuBindingRecord, FeishuSpaceRecord, FeishuRoutingDocument, routed_to_another_team,
  empty_routing_document,
}
use dreamux.Routing.Plan.{
  find_binding, bound_plan, binding_for, serving_team, space_for_container, bound, provision, plan,
}
use dreamux.Routing.Bindings.{
  BindInput, BindReport, UnbindReport, removed_route, follows_as, bind, fill_topic_root, unbind,
  unbind_rows, forget_team, set_row,
}
use dreamux.Routing.Policy.{SpaceInput, bind_space, find_space}
use dreamux.Routing.Invariant.{IsConsistent}
use dreamux.Routing.History.{Operation, binds, binds_space, run, step, run-IsConsistent}
use dreamux.Routing.Effects.{plan-bind, bound_plan-bind, space_serves_topics}
use dreamux.Routing.Forgetting.{
  unbind_lem, binding_for-unbind, forget_team_idem, forget_team_keeps, fill_topic_root_once,
}

-- What the tests compute with.
program : Unit {0}
unfolding String-discrete TargetKey-discrete target_key resolution_chain containing_chat
    is_bindable_target empty_routing_document find_binding bound_plan binding_for
    space_for_container plan bind fill_topic_root unbind unbind_rows forget_team set_row bind_space
    step run find_space
program = tt

abbrev topic_one : FeishuTarget
topic_one = record { kind = FeishuTargetKind.topic; chat_id = "oc_1"; thread_id = some "omt_1" }

abbrev topic_two : FeishuTarget
topic_two = record { kind = FeishuTargetKind.topic; chat_id = "oc_1"; thread_id = some "omt_2" }

abbrev claim : BindInput
claim = record {
  target = topic_one;
  team_name = "red";
  display = none;
  space_id = none;
  root_message_id = none;
  require_owner = none;
}

abbrev row_one : FeishuBindingRecord
row_one = record {
  target = topic_one;
  display = none;
  team_name = "red";
  space_id = none;
  root_message_id = none;
  created_at = 5;
  updated_at = 5;
}

abbrev workshop : SpaceInput
workshop = record {
  space_name = "workshop";
  container_chat_id = "oc_1";
  display = none;
  leader_agent_runtime = "codex";
  identity = none;
  repo = none;
}

abbrev registered : FeishuSpaceRecord
registered = record {
  space_id = "oc_1";
  space_name = "workshop";
  container_chat_id = "oc_1";
  display = none;
  leader_agent_runtime = "codex";
  identity = none;
  repo = none;
  created_at = 4;
  updated_at = 4;
}

abbrev same_id : String → String
same_id chat_id = chat_id

abbrev set_up : List (ℕ × Operation)
set_up = (4, binds_space workshop) ∷ (5, binds claim) ∷ []

abbrev empty : FeishuRoutingDocument
empty = empty_routing_document 0

abbrev bound_one : FeishuRoutingDocument
bound_one = record {
  bindings = row_one ∷ [];
  spaces = registered ∷ [];
  subscriptions = [];
  updated_at = 5;
}

abbrev space_only : FeishuRoutingDocument
space_only = record { bindings = []; spaces = registered ∷ []; subscriptions = []; updated_at = 4 }

set_up_runs : run same_id empty set_up ≡ bound_one
unfolding program
set_up_runs = refl

bound_one-IsConsistent : IsConsistent bound_one
bound_one-IsConsistent = rw set_up_runs at (run-IsConsistent same_id 0 set_up)

run-IsConsistent_example : IsConsistent (run same_id empty set_up)
run-IsConsistent_example = run-IsConsistent same_id 0 set_up

abbrev first_report : BindReport
first_report = record {
  previous_team_name = none;
  previous_serving_team_name = none;
  root_message_id = none;
}

claim_binds : bind claim space_only 5 ≡ returned (bound_one, first_report)
unfolding program
claim_binds = refl

plan-bind_example :
    (plan bound_one topic_one false ≡ bound (record { team_name = "red"; matched = topic_one }))
    × ((row : FeishuBindingRecord) × (binding_for bound_one topic_one ≡ some row)
        × (row.root_message_id ≡ none))
plan-bind_example = plan-bind claim space_only 5 claim_binds false

-- Two decided texts.
is_no {ℓ} : {P : Type ℓ} (d : Dec P) → Bool
is_no (yes _) = false
is_no (no _) = true

apart {ℓ} : {P : Type ℓ} (d : Dec P) → is_no d ≡ true → ¬ P
unfolding is_no
apart (yes p) h = cc
apart (no n) h = n

teams_differ : ◌≢◌ {A = String} "red" "blue"
unfolding program is_no
teams_differ = apart (String-discrete "red" "blue") refl

topics_differ : target_key topic_one ≢ target_key topic_two
unfolding program is_no
topics_differ = apart (TargetKey-discrete (target_key topic_one) (target_key topic_two)) refl

group_differs : target_key topic_one ≢ target_key (containing_chat topic_two)
unfolding program is_no
group_differs =
    apart (TargetKey-discrete (target_key topic_one) (target_key (containing_chat topic_two))) refl

bound_plan-bind_example :
    bound_plan bound_one.bindings topic_two ≡ bound_plan space_only.bindings topic_two
bound_plan-bind_example =
    bound_plan-bind claim space_only 5 claim_binds topic_two topics_differ group_differs

space_serves_topics_example : plan bound_one topic_two true ≡ provision registered
unfolding program
space_serves_topics_example =
    space_serves_topics bound_one topic_two registered bound_one-IsConsistent refl refl refl

unbind_lem_example : unbind topic_one (some "blue") bound_one 6 ≡ thrown routed_to_another_team
unfolding program
unbind_lem_example = unbind_lem topic_one (some "blue") bound_one 6 bound_one-IsConsistent

abbrev released : UnbindReport
released = record {
  route = removed_route row_one;
  team_name = "red";
  next_serving_team_name = none;
}

abbrev emptied : FeishuRoutingDocument
emptied = record { bindings = []; spaces = registered ∷ []; subscriptions = []; updated_at = 6 }

binding_for-unbind_example :
    (binding_for emptied topic_one ≡ none)
    × (binding_for emptied topic_two ≡ binding_for bound_one topic_two)
    × (serving_team (bound_plan emptied.bindings topic_one) ≡ none)
unfolding program
binding_for-unbind_example =
    binding_for-unbind topic_one topic_two none bound_one emptied 6 released bound_one-IsConsistent
      refl topics_differ

forget_team_idem_example :
    (keep (λ row. row.team_name == "red") emptied.bindings ≡ [])
    × (keep (λ row. follows_as row.team_name "red") emptied.subscriptions ≡ [])
    × (emptied.spaces ≡ bound_one.spaces)
    × (forget_team "red" emptied 7
        ≡ returned (emptied, record { removed = []; subscriptions = [] }))
unfolding program
forget_team_idem_example =
    forget_team_idem "red" bound_one 6 7
      {r = (emptied, record { removed = removed_route row_one ∷ []; subscriptions = [] })} refl

forget_team_keeps_example :
    (keep (λ row. row.team_name == "blue") emptied.bindings
      ≡ keep (λ row. row.team_name == "blue") bound_one.bindings)
    × (keep (λ row. follows_as row.team_name "blue") emptied.subscriptions
        ≡ keep (λ row. follows_as row.team_name "blue") bound_one.subscriptions)
unfolding program
forget_team_keeps_example =
    forget_team_keeps "red" "blue" bound_one 6
      {r = (emptied, record { removed = removed_route row_one ∷ []; subscriptions = [] })} refl
      teams_differ

abbrev rooted : FeishuRoutingDocument
rooted = record bound_one {
  bindings = record row_one { root_message_id = some "om_9" } ∷ [];
  updated_at = 6;
}

fill_topic_root_once_example :
    (binding_for rooted topic_one ≡ some (record row_one { root_message_id = some "om_9" }))
    × (binding_for rooted topic_two ≡ binding_for bound_one topic_two)
    × (fill_topic_root topic_one "om_10" rooted 7 ≡ returned (rooted, tt))
unfolding program
fill_topic_root_once_example =
    fill_topic_root_once topic_one topic_two "om_9" "om_10" bound_one 6 7 row_one {r = (rooted, tt)}
      refl refl refl refl topics_differ
