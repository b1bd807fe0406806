-- ===== src/Routing/Effects.antt =====
-- What a change of the bindings does to the routes. (routing/index.ts)
use dreamux.Base.{
  ℕ, ◌≡◌, refl, sym, ◌∙◌, ◌⊎◌, inl, inr, String, Bool, true, false, Option, none, some, List, [],
  ◌∷◌, ◌++◌, arith, ◌==◌, Option-cases, find_first, ◌≢◌,
}
use dreamux.Base.Result.{returned}
use dreamux.Routing.Target.{
  FeishuTarget, FeishuTargetKind, TargetKey, group_key, target_key, resolution_chain,
  containing_chat, is_bindable_target,
}
use dreamux.Routing.Document.{FeishuBindingRecord, FeishuSpaceRecord, FeishuRoutingDocument}
use dreamux.Routing.Plan.{
  bound, provision, find_binding, binding_for, space_for_container, bound_plan, plan,
}
use dreamux.Routing.Bindings.{
  BindInput, BindReport, rebound, fresh_row, bind, set_row, or_root, same_text,
}
use dreamux.Routing.Policy.{has_whole_chat}
use dreamux.Routing.Rows.{find_binding-append, find_binding-set_row}
use dreamux.Routing.Invariant.{IsConsistent, hosts}

same_text-eq : {a b : Option String} → same_text a b ≡ true → a ≡ b
same_text-eq {a} {b} h = ground arith

module _ (input : BindInput) (d : FeishuRoutingDocument) (now : ℕ)
    {r : FeishuRoutingDocument × BindReport} (h : bind input d now ≡ returned r) where
  -- A bind of a free target adds its row.
  bind_new :
      find_binding (target_key input.target) d.bindings ≡ none
      → (r.0.bindings ≡ d.bindings ++ fresh_row input now ∷ [])
        × (r.1.root_message_id ≡ input.root_message_id)
        × (r.1.previous_team_name ≡ none)
  unfolding bind
  bind_new e = ground arith

  -- A bind of a held target writes through its row, unless the row says it all already.
  bind_old :
      (row : FeishuBindingRecord)
      → find_binding (target_key input.target) d.bindings ≡ some row
      → (((r.0.bindings ≡ d.bindings)
            × (row.team_name ≡ input.team_name)
            × (same_text row.root_message_id (or_root input.root_message_id row.root_message_id)
                ≡ true))
          ⊎ (r.0.bindings ≡ set_row (target_key input.target) (rebound input now) d.bindings))
        × (r.1.root_message_id ≡ or_root input.root_message_id row.root_message_id)
        × (r.1.previous_team_name ≡ some row.team_name)
  unfolding bind
  bind_old row e = ground arith

  -- The row of the target itself.
  bind_self :
      (row : FeishuBindingRecord) × (find_binding (target_key input.target) r.0.bindings ≡ some row)
      × (row.team_name ≡ input.team_name)
      × (row.root_message_id ≡ r.1.root_message_id)
  bind_self = elim (Option-cases (find_binding (target_key input.target) d.bindings)) [
    | inl e ↦
        let (added, root, _) = bind_new e in
        (fresh_row input now, rw (added, find_binding-append) (ground arith), refl, sym root)
    | inr (row, e) ↦
        let (written, root, _) = bind_old row e in
        elim written [
          | inl (same, team, kept) ↦ (row, rw same e, team, same_text-eq kept ∙ sym root)
          | inr set ↦ (
            rebound input now row,
            rw set (
                ground (
                  arith,
                  find_binding-set_row (rebound input now) (λ x. refl) (target_key input.target)
                      (target_key input.target) d.bindings,
                )),
            refl,
            sym root,
          )
        ]
  ]

  -- The rows of the others.
  bind_other :
      (k : TargetKey)
      → target_key input.target ≢ k
      → find_binding k r.0.bindings ≡ find_binding k d.bindings
  bind_other k n = elim (Option-cases (find_binding (target_key input.target) d.bindings)) [
    | inl e ↦
        let (added, _, _) = bind_new e in
        rw added (ground (arith, find_binding-append k d.bindings (fresh_row input now)))
    | inr (row, e) ↦ elim (bind_old row e).0 [
      | inl (same, _, _) ↦ rw same
      | inr written ↦ rw written (
          ground (
            arith,
            find_binding-set_row (rebound input now) (λ x. refl) (target_key input.target) k
                d.bindings,
          ))
    ]
  ]

bound_plan_self :
    (rows : List FeishuBindingRecord) (t : FeishuTarget) (row : FeishuBindingRecord)
    → find_binding (target_key t) rows ≡ some row
    → bound_plan rows t ≡ some (record { team_name = row.team_name; matched = t })
unfolding bound_plan resolution_chain
bound_plan_self rows t row e = ground arith

bound_plan-same :
    (rows others : List FeishuBindingRecord) (t : FeishuTarget)
    → find_binding (target_key t) rows ≡ find_binding (target_key t) others
    → find_binding (target_key (containing_chat t)) rows
      ≡ find_binding (target_key (containing_chat t)) others
    → bound_plan rows t ≡ bound_plan others t
unfolding bound_plan resolution_chain
bound_plan-same rows others t e c = ground arith

module _ (input : BindInput) (d : FeishuRoutingDocument) (now : ℕ)
    {r : FeishuRoutingDocument × BindReport} (h : bind input d now ≡ returned r) where
  -- Once a bind has committed, messages to its target go to the new team by that very row, under
  -- the root that the bind reports.
  pub plan-bind :
      (can_provision : Bool)
      → (plan r.0 input.target can_provision
          ≡ bound (record { team_name = input.team_name; matched = input.target }))
        × ((row : FeishuBindingRecord) × (binding_for r.0 input.target ≡ some row)
            × (row.root_message_id ≡ r.1.root_message_id))
  unfolding plan binding_for
  plan-bind can_provision =
      let (row, found, team, root) = bind_self input d now h in
      (ground (arith, bound_plan_self r.0.bindings input.target row found), (row, found, root))

  -- A target that is neither the bound one nor a topic below it is served as before the bind.
  pub bound_plan-bind :
      (t : FeishuTarget)
      → target_key input.target ≢ target_key t
      → target_key input.target ≢ target_key (containing_chat t)
      → bound_plan r.0.bindings t ≡ bound_plan d.bindings t
  bound_plan-bind t n m =
      bound_plan-same r.0.bindings d.bindings t (bind_other input d now h (target_key t) n)
        (bind_other input d now h (target_key (containing_chat t)) m)

-- A chat that carries no whole-chat row answers for none of its topics.
find_binding-group :
    (c : String) (rows : List FeishuBindingRecord)
    → has_whole_chat c rows ≡ false
    → find_binding (group_key c) rows ≡ none
unfolding find_binding target_key
find_binding-group c [] h = refl
find_binding-group c (row ∷ rows) h = ground (arith, find_binding-group c rows)

hosts-space_for_container :
    (d : FeishuRoutingDocument) (c : String) (space : FeishuSpaceRecord)
    → space_for_container d c ≡ some space
    → hosts c d.spaces ≡ true
unfolding space_for_container
hosts-space_for_container d c space h = found d.spaces h
  where
    found :
        (rows : List FeishuSpaceRecord)
        → find_first (λ row. row.container_chat_id == c) rows ≡ some space
        → hosts c rows ≡ true
    found [] h = cc
    found (row ∷ rows) h = ground (arith, found rows)

-- In a consistent document every topic of a Collaboration Space that has no row of its own may get
-- a team under that space's policy: no whole-chat row ever captures it.
pub space_serves_topics :
    (d : FeishuRoutingDocument) (t : FeishuTarget) (space : FeishuSpaceRecord)
    → IsConsistent d
    → t.kind ≡ FeishuTargetKind.topic
    → binding_for d t ≡ none
    → space_for_container d t.chat_id ≡ some space
    → plan d t true ≡ provision space
unfolding plan binding_for bound_plan resolution_chain containing_chat target_key is_bindable_target
space_serves_topics d t space v k e s = ground (
  arith,
  find_binding-group t.chat_id d.bindings,
  hosts-space_for_container d t.chat_id space s,
  v.exclusive t.chat_id,
)
