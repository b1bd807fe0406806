-- ===== src/Routing/Invariant.antt =====
-- What holds of the routing document between two changes. (routing/document.ts, routing/index.ts)
use dreamux.Base.{
  ℕ, ◌≡◌, refl, String, Bool, false, not, ◌&&◌, Option, some, List, [], ◌∷◌, arith, ◌==◌, exists,
  exists-append, exists-keep,
}
use dreamux.Base.Result.{returned}
use dreamux.Routing.Target.{FeishuTarget, target_key, ◌=key=◌}
use dreamux.Routing.Document.{FeishuSpaceRecord, FeishuRoutingDocument, empty_routing_document}
use dreamux.Routing.Bindings.{
  BindInput, BindReport, UnbindReport, ForgetReport, rebound, fresh_row, is_group, bind,
  fill_topic_root, unbind, forget_team,
}
use dreamux.Routing.Policy.{
  SpaceInput, policy_of, fresh_space, has_whole_chat, bind_space, unbind_space, subscribe,
  unsubscribe,
}
use dreamux.Routing.Rows.{
  HasDistinctKeys, HasDistinctSpaces, append-HasDistinctKeys, set_row-HasDistinctKeys,
  has_whole_chat-set_row, keep-HasDistinctKeys, unbind_rows_lem, append-HasDistinctSpaces,
  keep-HasDistinctSpaces, set_space-HasDistinctSpaces, hosts-set_space, has_whole_chat-keep,
  not_taken,
}

abbrev pub hosts : String → List FeishuSpaceRecord → Bool
hosts chat_id = exists (λ row. row.container_chat_id == chat_id)

-- One row a target, one space an id and a name, and no chat that is bound as a whole and a space.
pub record IsConsistent (d : FeishuRoutingDocument) : Type 0 where
  pub distinct_keys : HasDistinctKeys d.bindings
  pub distinct_spaces : HasDistinctSpaces d.spaces
  pub exclusive : (c : String) → (has_whole_chat c d.bindings && hosts c d.spaces) ≡ false

pub empty-IsConsistent : (now : ℕ) → IsConsistent (empty_routing_document now)
unfolding empty_routing_document
empty-IsConsistent now = record { distinct_keys = tt; distinct_spaces = tt; exclusive = λ c. refl }

pub bind-IsConsistent :
    (input : BindInput) (d : FeishuRoutingDocument) (now : ℕ)
    {r : FeishuRoutingDocument × BindReport}
    → bind input d now ≡ returned r
    → IsConsistent d
    → IsConsistent r.0
unfolding bind
bind-IsConsistent input d now {r} h v = record {
  distinct_keys = ground (
    arith,
    append-HasDistinctKeys d.bindings (fresh_row input now) v.distinct_keys,
    set_row-HasDistinctKeys (rebound input now) (λ x. refl) (target_key input.target) d.bindings
        v.distinct_keys,
  );
  distinct_spaces = ground arith;
  exclusive = λ c. ground (
    arith,
    v.exclusive c,
    exists-append (λ row. is_group row.target.kind && row.target.chat_id == c) d.bindings
        (fresh_row input now ∷ []),
    has_whole_chat-set_row (rebound input now) (λ x. refl) c (target_key input.target) d.bindings,
  );
}

pub fill-IsConsistent :
    (target : FeishuTarget) (root : String) (d : FeishuRoutingDocument) (now : ℕ)
    {r : FeishuRoutingDocument × Unit {0}}
    → fill_topic_root target root d now ≡ returned r
    → IsConsistent d
    → IsConsistent r.0
unfolding fill_topic_root
fill-IsConsistent target root d now {r} h v = record {
  distinct_keys = ground (
    arith,
    set_row-HasDistinctKeys (λ x. record x { root_message_id = some root }) (λ x. refl)
        (target_key target) d.bindings v.distinct_keys,
  );
  distinct_spaces = ground arith;
  exclusive = λ c. ground (
    arith,
    v.exclusive c,
    has_whole_chat-set_row (λ x. record x { root_message_id = some root }) (λ x. refl) c
        (target_key target) d.bindings,
  );
}

pub unbind-IsConsistent :
    (target : FeishuTarget) (owner : Option String) (d : FeishuRoutingDocument) (now : ℕ)
    {r : FeishuRoutingDocument × Option UnbindReport}
    → unbind target owner d now ≡ returned r
    → IsConsistent d
    → IsConsistent r.0
unfolding unbind
unbind-IsConsistent target owner d now {r} h v = record {
  distinct_keys = ground (
    arith,
    unbind_rows_lem (target_key target) owner d.bindings v.distinct_keys,
    keep-HasDistinctKeys (λ row. not (target_key row.target =key= target_key target)) d.bindings
        v.distinct_keys,
  );
  distinct_spaces =
      ground (arith, unbind_rows_lem (target_key target) owner d.bindings v.distinct_keys);
  exclusive = λ c. ground (
    arith,
    v.exclusive c,
    unbind_rows_lem (target_key target) owner d.bindings v.distinct_keys,
    has_whole_chat-keep (λ row. not (target_key row.target =key= target_key target)) c d.bindings,
  );
}

pub forget-IsConsistent :
    (team_name : String) (d : FeishuRoutingDocument) (now : ℕ)
    {r : FeishuRoutingDocument × ForgetReport}
    → forget_team team_name d now ≡ returned r
    → IsConsistent d
    → IsConsistent r.0
unfolding forget_team
forget-IsConsistent team_name d now {r} h v = record {
  distinct_keys = ground (
    arith,
    keep-HasDistinctKeys (λ row. not (row.team_name == team_name)) d.bindings v.distinct_keys,
  );
  distinct_spaces = ground arith;
  exclusive = λ c. ground (
    arith,
    v.exclusive c,
    has_whole_chat-keep (λ row. not (row.team_name == team_name)) c d.bindings,
  );
}

pub bind_space-IsConsistent :
    (space_id : String → String) (input : SpaceInput) (d : FeishuRoutingDocument) (now : ℕ)
    {r : FeishuRoutingDocument × FeishuSpaceRecord}
    → bind_space space_id input d now ≡ returned r
    → IsConsistent d
    → IsConsistent r.0
unfolding bind_space
bind_space-IsConsistent space_id input d now {r} h v =
    let id = space_id input.container_chat_id in
    record {
      distinct_keys = ground arith;
      distinct_spaces = ground (
        arith,
        append-HasDistinctSpaces d.spaces (fresh_space id input now) v.distinct_spaces,
        set_space-HasDistinctSpaces (policy_of input now) input.space_name (λ x. refl) (λ x. refl)
            (λ x. refl) id d.spaces v.distinct_spaces,
        not_taken input.space_name id d.spaces,
      );
      exclusive = λ c. ground (
        arith,
        v.exclusive c,
        exists-append (λ row. row.container_chat_id == c) d.spaces (fresh_space id input now ∷ []),
        hosts-set_space (policy_of input now) input.space_name (λ x. refl) (λ x. refl) (λ x. refl) c
            id d.spaces,
      );
    }

pub unbind_space-IsConsistent :
    (space_name : String) (d : FeishuRoutingDocument) (now : ℕ)
    {r : FeishuRoutingDocument × Option FeishuSpaceRecord}
    → unbind_space space_name d now ≡ returned r
    → IsConsistent d
    → IsConsistent r.0
unfolding unbind_space
unbind_space-IsConsistent space_name d now {r} h v = record {
  distinct_keys = ground arith;
  distinct_spaces = ground (
    arith,
    keep-HasDistinctSpaces (λ row. not (row.space_name == space_name)) d.spaces v.distinct_spaces,
  );
  exclusive = λ c. ground (
    arith,
    v.exclusive c,
    exists-keep (λ row. row.container_chat_id == c) (λ row. not (row.space_name == space_name))
        d.spaces,
  );
}

pub subscribe-IsConsistent :
    (file_token file_type : String) (team_name : Option String) (d : FeishuRoutingDocument)
    (now : ℕ) {r : FeishuRoutingDocument × Bool}
    → subscribe file_token file_type team_name d now ≡ returned r
    → IsConsistent d
    → IsConsistent r.0
unfolding subscribe
subscribe-IsConsistent file_token file_type team_name d now {r} h v = record {
  distinct_keys = ground arith;
  distinct_spaces = ground arith;
  exclusive = λ c. ground (arith, v.exclusive c);
}

pub unsubscribe-IsConsistent :
    (file_token : String) (team_name : Option String) (d : FeishuRoutingDocument) (now : ℕ)
    {r : FeishuRoutingDocument × Bool}
    → unsubscribe file_token team_name d now ≡ returned r
    → IsConsistent d
    → IsConsistent r.0
unfolding unsubscribe
unsubscribe-IsConsistent file_token team_name d now {r} h v = record {
  distinct_keys = ground arith;
  distinct_spaces = ground arith;
  exclusive = λ c. ground (arith, v.exclusive c);
}
