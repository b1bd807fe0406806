-- ===== src/Routing/Document.antt =====
-- routing/document.ts and routing/store.ts: the durable document and the one way it changes.
use dreamux.Base.{ℕ, String, Bool, Option, List, [], if◌then◌else◌}
use dreamux.Base.Result.{Result, returned, ◌>>=◌}
use dreamux.Routing.Target.{FeishuTarget}

pub record FeishuBindingRecord : Type 0 where
  pub target : FeishuTarget
  pub display : Option String
  pub team_name : String
  pub space_id : Option String
  pub root_message_id : Option String
  pub created_at : ℕ
  pub updated_at : ℕ

pub record FeishuSpaceRepoPolicy : Type 0 where
  pub path : String
  pub base_ref : Option String

pub record FeishuSpaceRecord : Type 0 where
  pub space_id : String
  pub space_name : String
  pub container_chat_id : String
  pub display : Option String
  pub leader_agent_runtime : String
  pub identity : Option String
  pub repo : Option FeishuSpaceRepoPolicy
  pub created_at : ℕ
  pub updated_at : ℕ

-- No team is the Dispatcher Agent.
pub record FeishuDocSubscriptionRecord : Type 0 where
  pub file_token : String
  pub file_type : String
  pub team_name : Option String
  pub created_at : ℕ

pub record FeishuRoutingDocument : Type 0 where
  pub bindings : List FeishuBindingRecord
  pub spaces : List FeishuSpaceRecord
  pub subscriptions : List FeishuDocSubscriptionRecord
  pub updated_at : ℕ

unfoldable pub empty_routing_document : ℕ → FeishuRoutingDocument
empty_routing_document now = record {
  bindings = [];
  spaces = [];
  subscriptions = [];
  updated_at = now;
}

pub data Refusal : Type 0 where
  chat_is_a_space routed_to_another_team space_name_taken chat_bound_as_a_whole : Refusal

-- What a mutator makes of its private copy: whether it changed, the copy, and what it reports.
pub record Mutated (R : Type 0) : Type 0 where
  pub changed : Bool
  pub document : FeishuRoutingDocument
  pub report : R

abbrev stamped : {R : Type 0} → FeishuRoutingDocument → ℕ → Mutated R → FeishuRoutingDocument × R
stamped committed now m =
    (if m.changed then record (m.document) { updated_at = now } else committed, m.report)

-- An unchanged copy writes nothing; a refusal leaves the commit as it was.
unfoldable pub update_routing_document :
    {R : Type 0}
    → (FeishuRoutingDocument → Result Refusal (Mutated R))
    → FeishuRoutingDocument
    → ℕ
    → Result Refusal (FeishuRoutingDocument × R)
update_routing_document mutator committed now = do
  m ← mutator committed
  returned (stamped committed now m)
