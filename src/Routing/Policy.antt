-- ===== src/Routing/Policy.antt =====
-- routing/index.ts: the Collaboration Space policies and the document subscriptions.
use dreamux.Base.{
  ℕ, String, Bool, true, false, not, ◌&&◌, Option, none, some, List, [], ◌∷◌, ◌++◌, if◌then◌else◌,
  ◌==◌, keep, exists, nat_eq, length,
}
use dreamux.Base.Result.{Result, returned, thrown}
use dreamux.Routing.Document.{
  FeishuBindingRecord, FeishuSpaceRecord, FeishuSpaceRepoPolicy, FeishuDocSubscriptionRecord,
  FeishuRoutingDocument, Refusal, space_name_taken, chat_bound_as_a_whole, Mutated,
  update_routing_document,
}
use dreamux.Routing.Bindings.{same_text, is_group}

pub record SpaceInput : Type 0 where
  pub space_name : String
  pub container_chat_id : String
  pub display : Option String
  pub leader_agent_runtime : String
  pub identity : Option String
  pub repo : Option FeishuSpaceRepoPolicy

abbrev pub policy_of : SpaceInput → ℕ → FeishuSpaceRecord → FeishuSpaceRecord
policy_of input now existing = record existing {
  space_name = input.space_name;
  display = input.display;
  leader_agent_runtime = input.leader_agent_runtime;
  identity = input.identity;
  repo = input.repo;
  updated_at = now;
}

abbrev pub fresh_space : String → SpaceInput → ℕ → FeishuSpaceRecord
fresh_space id input now = record {
  space_id = id;
  space_name = input.space_name;
  container_chat_id = input.container_chat_id;
  display = input.display;
  leader_agent_runtime = input.leader_agent_runtime;
  identity = input.identity;
  repo = input.repo;
  created_at = now;
  updated_at = now;
}

unfoldable pub find_space : String → List FeishuSpaceRecord → Option FeishuSpaceRecord
find_space id [] = none
find_space id (row ∷ rows) = if row.space_id == id then some row else find_space id rows

unfoldable pub set_space :
    String
    → (FeishuSpaceRecord → FeishuSpaceRecord)
    → List FeishuSpaceRecord
    → List FeishuSpaceRecord
set_space id f [] = []
set_space id f (row ∷ rows) = if row.space_id == id then f row ∷ rows else row ∷ set_space id f rows

abbrev pub has_whole_chat : String → List FeishuBindingRecord → Bool
has_whole_chat chat_id = exists (λ row. is_group row.target.kind && row.target.chat_id == chat_id)

abbrev pub name_taken : String → String → List FeishuSpaceRecord → Bool
name_taken name id = exists (λ row. row.space_name == name && not (row.space_id == id))

abbrev saved_space : SpaceInput → String → FeishuRoutingDocument → ℕ → Mutated FeishuSpaceRecord
saved_space input id d now = elim (find_space id d.spaces) [
  | none ↦ record {
    changed = true;
    document = record d { spaces = d.spaces ++ fresh_space id input now ∷ [] };
    report = fresh_space id input now;
  }
  | some existing ↦ record {
    changed = true;
    document = record d { spaces = set_space id (policy_of input now) d.spaces };
    report = policy_of input now existing;
  }
]

-- `space_id` is the hash of a container's chat id under this dispatcher and channel.
unfoldable pub bind_space :
    (String → String)
    → SpaceInput
    → FeishuRoutingDocument
    → ℕ
    → Result Refusal (FeishuRoutingDocument × FeishuSpaceRecord)
unfolding update_routing_document
bind_space space_id input d now =
    let id = space_id input.container_chat_id in
    update_routing_document
      (λ document.
        if name_taken input.space_name id document.spaces
        then thrown space_name_taken
        else (if has_whole_chat input.container_chat_id document.bindings
            then thrown chat_bound_as_a_whole
            else returned (saved_space input id document now)))
      d now

-- The last of the dropped rows is the one reported.
unfoldable pub last_named : String → List FeishuSpaceRecord → Option FeishuSpaceRecord
last_named name [] = none
last_named name (row ∷ rows) = elim (last_named name rows) [
  | some last ↦ some last
  | none ↦ if row.space_name == name then some row else none
]

unfoldable pub unbind_space :
    String
    → FeishuRoutingDocument
    → ℕ
    → Result Refusal (FeishuRoutingDocument × Option FeishuSpaceRecord)
unfolding update_routing_document
unbind_space space_name d now =
    update_routing_document
      (λ document.
        let kept = keep (λ row. not (row.space_name == space_name)) document.spaces in
        returned (record {
          changed = not (nat_eq (length kept) (length document.spaces));
          document = record document { spaces = kept };
          report = last_named space_name document.spaces;
        }))
      d now

abbrev pub is_subscription : String → Option String → FeishuDocSubscriptionRecord → Bool
is_subscription file_token team_name row =
    row.file_token == file_token && same_text row.team_name team_name

-- The report says whether the document was followed already.
unfoldable pub subscribe :
    String
    → String
    → Option String
    → FeishuRoutingDocument
    → ℕ
    → Result Refusal (FeishuRoutingDocument × Bool)
unfolding update_routing_document
subscribe file_token file_type team_name d now =
    update_routing_document
      (λ document.
        let found = exists (is_subscription file_token team_name) document.subscriptions in
        returned (
          if found then record { changed = false; document = document; report = true } else record {
            changed = true;
            document = record document {
              subscriptions =
                  document.subscriptions
                  ++ record {
                    file_token = file_token;
                    file_type = file_type;
                    team_name = team_name;
                    created_at = now;
                  }
                    ∷ [];
            };
            report = false;
          }))
      d now

unfoldable pub unsubscribe :
    String
    → Option String
    → FeishuRoutingDocument
    → ℕ
    → Result Refusal (FeishuRoutingDocument × Bool)
unfolding update_routing_document
unsubscribe file_token team_name d now =
    update_routing_document
      (λ document.
        let kept =
          keep (λ row. not (is_subscription file_token team_name row)) document.subscriptions in
        let any = not (nat_eq (length kept) (length document.subscriptions)) in
        returned (record {
          changed = any;
          document = if any then record document { subscriptions = kept } else document;
          report = any;
        }))
      d now

unfoldable pub subscribers_for : String → FeishuRoutingDocument → List FeishuDocSubscriptionRecord
subscribers_for file_token d = keep (λ row. row.file_token == file_token) d.subscriptions
