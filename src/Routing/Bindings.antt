-- ===== src/Routing/Bindings.antt =====
-- routing/index.ts: the changes to the bindings.
use dreamux.Base.{
  ℕ, String, Bool, true, false, not, ◌||◌, ◌&&◌, Option, none, some, List, [], ◌∷◌, ◌++◌,
  if◌then◌else◌, ◌==◌, keep, exists, nat_eq, length, map,
}
use dreamux.Base.Result.{Result, returned, thrown, ◌>>=◌}
use dreamux.Routing.Target.{FeishuTarget, FeishuTargetKind, TargetKey, target_key, ◌=key=◌}
use dreamux.Routing.Document.{
  FeishuBindingRecord, FeishuSpaceRecord, FeishuDocSubscriptionRecord, FeishuRoutingDocument,
  Refusal, chat_is_a_space, routed_to_another_team, Mutated, update_routing_document,
}
use dreamux.Routing.Plan.{is_topic, find_binding, bound_plan, serving_team}

pub record BindInput : Type 0 where
  pub target : FeishuTarget
  pub team_name : String
  pub display : Option String
  pub space_id : Option String
  pub root_message_id : Option String
  pub require_owner : Option String

pub record BindReport : Type 0 where
  pub previous_team_name : Option String
  pub previous_serving_team_name : Option String
  pub root_message_id : Option String

-- `a ?? b`, and `===` on texts that may be missing.
abbrev pub or_root : Option String → Option String → Option String
or_root none b = b
or_root (some a) b = some a

abbrev pub same_text : Option String → Option String → Bool
same_text none none = true
same_text (some a) (some b) = a == b
same_text none (some _) = false
same_text (some _) none = false

-- `requireOwner` is set and is not the row's team.
abbrev pub is_foreign : Option String → String → Bool
is_foreign none team_name = false
is_foreign (some owner) team_name = not (team_name == owner)

-- A write through the row that `find` returned: the first with the key.
unfoldable pub set_row :
    TargetKey
    → (FeishuBindingRecord → FeishuBindingRecord)
    → List FeishuBindingRecord
    → List FeishuBindingRecord
set_row key f [] = []
set_row key f (row ∷ rows) =
    if target_key row.target =key= key then f row ∷ rows else row ∷ set_row key f rows

abbrev pub is_group : FeishuTargetKind → Bool
is_group FeishuTargetKind.group = true
is_group FeishuTargetKind.topic = false
is_group FeishuTargetKind.p2p = false

abbrev pub is_whole_space : FeishuTarget → List FeishuSpaceRecord → Bool
is_whole_space target spaces =
    is_group target.kind && exists (λ row. row.container_chat_id == target.chat_id) spaces

-- The row moves to the input's team; its root is kept where the input has none.
abbrev pub rebound : BindInput → ℕ → FeishuBindingRecord → FeishuBindingRecord
rebound input now existing = record existing {
  team_name = input.team_name;
  display = input.display;
  space_id = input.space_id;
  root_message_id = or_root input.root_message_id existing.root_message_id;
  updated_at = now;
}

abbrev pub fresh_row : BindInput → ℕ → FeishuBindingRecord
fresh_row input now = record {
  target = input.target;
  display = input.display;
  team_name = input.team_name;
  space_id = input.space_id;
  root_message_id = input.root_message_id;
  created_at = now;
  updated_at = now;
}

bind_existing :
    BindInput
    → FeishuRoutingDocument
    → ℕ
    → FeishuBindingRecord
    → Result Refusal (Mutated BindReport)
bind_existing input d now existing =
    let root = or_root input.root_message_id existing.root_message_id in
    let report : BindReport = record {
      previous_team_name = some existing.team_name;
      previous_serving_team_name = serving_team (bound_plan d.bindings input.target);
      root_message_id = root;
    } in
    if is_foreign input.require_owner existing.team_name
    then thrown routed_to_another_team
    else (if existing.team_name == input.team_name
          && same_text existing.display input.display
          && same_text existing.space_id input.space_id
          && same_text existing.root_message_id root
        then returned (record { changed = false; document = d; report = report })
        else returned (record {
          changed = true;
          document = record d {
            bindings = set_row (target_key input.target) (rebound input now) d.bindings;
          };
          report = report;
        }))

-- The mutator of `bind`.
unfoldable pub bind_document :
    BindInput → ℕ → FeishuRoutingDocument → Result Refusal (Mutated BindReport)
unfolding bind_existing
bind_document input now d =
    if is_whole_space input.target d.spaces
    then thrown chat_is_a_space
    else elim (find_binding (target_key input.target) d.bindings) [
      | some existing ↦ bind_existing input d now existing
      | none ↦ returned (record {
        changed = true;
        document = record d { bindings = d.bindings ++ fresh_row input now ∷ [] };
        report = record {
          previous_team_name = none;
          previous_serving_team_name = serving_team (bound_plan d.bindings input.target);
          root_message_id = input.root_message_id;
        };
      })
    ]

unfoldable pub bind :
    BindInput → FeishuRoutingDocument → ℕ → Result Refusal (FeishuRoutingDocument × BindReport)
unfolding bind_document update_routing_document
bind input d now = update_routing_document (bind_document input now) d now

abbrev is_unrooted : Option FeishuBindingRecord → Bool
is_unrooted none = false
is_unrooted (some row) = elim row.root_message_id [ none ↦ true | some _ ↦ false ]

-- The precondition outside the commit reads the document that the commit then copies.
unfoldable pub fill_topic_root :
    FeishuTarget
    → String
    → FeishuRoutingDocument
    → ℕ
    → Result Refusal (FeishuRoutingDocument × Unit {0})
unfolding update_routing_document
fill_topic_root target root d now =
    update_routing_document
      (λ document.
        let key = target_key target in
        let row = find_binding key document.bindings in
        returned (
          if is_topic target.kind && is_unrooted row
          then record {
            changed = true;
            document = record document {
              bindings =
                  set_row key (λ r. record r { root_message_id = some root }) document.bindings;
            };
            report = tt;
          }
          else record { changed = false; document = document; report = tt }))
      d now

pub record FeishuRemovedRoute : Type 0 where
  pub target : FeishuTarget
  pub display : Option String
  pub root_message_id : Option String

abbrev pub removed_route : FeishuBindingRecord → FeishuRemovedRoute
removed_route row = record {
  target = row.target;
  display = row.display;
  root_message_id = row.root_message_id;
}

pub record UnbindReport : Type 0 where
  pub route : FeishuRemovedRoute
  pub team_name : String
  pub next_serving_team_name : Option String

-- The loop of `unbind`: the rows kept and the last one dropped.
unfoldable pub unbind_rows :
    TargetKey
    → Option String
    → List FeishuBindingRecord
    → Result Refusal (List FeishuBindingRecord × Option FeishuBindingRecord)
unbind_rows key owner [] = returned ([], none)
unbind_rows key owner (row ∷ rows) =
    let rest = unbind_rows key owner rows in
    if not (target_key row.target =key= key)
    then rest >>= (λ r. returned (row ∷ r.0, r.1))
    else (if is_foreign owner row.team_name
        then thrown routed_to_another_team
        else rest >>= (λ r. returned (r.0, elim r.1 [ some last ↦ some last | none ↦ some row ])))

abbrev unbind_outcome :
    FeishuTarget
    → FeishuRoutingDocument
    → List FeishuBindingRecord × Option FeishuBindingRecord
    → Mutated (Option UnbindReport)
unbind_outcome target d (kept, none) = record { changed = false; document = d; report = none }
unbind_outcome target d (kept, some row) = record {
  changed = true;
  document = record d { bindings = kept };
  report = some (record {
    route = removed_route row;
    team_name = row.team_name;
    next_serving_team_name = serving_team (bound_plan kept target);
  });
}

unfoldable pub unbind :
    FeishuTarget
    → Option String
    → FeishuRoutingDocument
    → ℕ
    → Result Refusal (FeishuRoutingDocument × Option UnbindReport)
unfolding update_routing_document
unbind target owner d now =
    update_routing_document
      (λ document. do
        r ← unbind_rows (target_key target) owner document.bindings
        returned (unbind_outcome target document r))
      d now

pub record ForgetReport : Type 0 where
  pub removed : List FeishuRemovedRoute
  pub subscriptions : List FeishuDocSubscriptionRecord

abbrev pub follows_as : Option String → String → Bool
follows_as none team_name = false
follows_as (some t) team_name = t == team_name

unfoldable pub forget_team :
    String → FeishuRoutingDocument → ℕ → Result Refusal (FeishuRoutingDocument × ForgetReport)
unfolding update_routing_document
forget_team team_name d now =
    update_routing_document
      (λ document.
        let kept = keep (λ row. not (row.team_name == team_name)) document.bindings in
        let kept_subscriptions =
          keep (λ row. not (follows_as row.team_name team_name)) document.subscriptions in
        let changed =
          not (nat_eq (length kept) (length document.bindings))
          || not (nat_eq (length kept_subscriptions) (length document.subscriptions)) in
        returned (record {
          changed = changed;
          document =
              if changed
              then record document { bindings = kept; subscriptions = kept_subscriptions }
              else document;
          report = record {
            removed =
                map removed_route (keep (λ row. row.team_name == team_name) document.bindings);
            subscriptions = keep (λ row. follows_as row.team_name team_name) document.subscriptions;
          };
        }))
      d now
