-- ===== src/Routing/Forgetting.antt =====
-- The ends of a route: `unbind`, `forgetTeam`, and the root that a topic learns once.
-- (routing/index.ts)
use dreamux.Base.{
  ℕ, ◌≡◌, refl, String, not, Option, none, some, List, [], arith, if◌then◌else◌, ◌==◌, keep, ◌≢◌,
  keep_full, keep-keep, keep-keep_of_imp, keep-keep_disjoint,
}
use dreamux.Base.Result.{returned, thrown}
use dreamux.Routing.Target.{FeishuTarget, FeishuTargetKind, target_key}
use dreamux.Routing.Document.{
  FeishuBindingRecord, FeishuDocSubscriptionRecord, FeishuRoutingDocument, routed_to_another_team,
}
use dreamux.Routing.Plan.{binding_for, bound_plan, serving_team}
use dreamux.Routing.Bindings.{
  UnbindReport, ForgetReport, removed_route, is_foreign, follows_as, fill_topic_root, unbind,
  forget_team,
}
use dreamux.Routing.Rows.{find_binding-set_row, unbind_rows_lem, drop_key, find_binding-drop_key}
use dreamux.Routing.Invariant.{IsConsistent}

-- On a consistent document `unbind` does nothing where the target has no row, refuses where
-- another team than the required owner holds it, and otherwise removes that one row, keeps all
-- others, and reports the row and the team that serves the target from then on.
pub unbind_lem :
    (target : FeishuTarget) (owner : Option String) (d : FeishuRoutingDocument) (now : ℕ)
    → IsConsistent d
    → unbind target owner d now ≡ elim (binding_for d target) [
      | none ↦ returned (d, none)
      | some row ↦
          if is_foreign owner row.team_name
          then thrown routed_to_another_team
          else returned (
            record d { bindings = drop_key (target_key target) d.bindings; updated_at = now },
            some (record {
              route = removed_route row;
              team_name = row.team_name;
              next_serving_team_name =
                  serving_team (bound_plan (drop_key (target_key target) d.bindings) target);
            }),
          )
    ]
unfolding unbind binding_for
unbind_lem target owner d now v =
    ground (arith, unbind_rows_lem (target_key target) owner d.bindings v.distinct_keys)

-- After an unbind that removed a row, the target has none, every other target has the row that it
-- had, and the reported team is the one that answers for the target now.
pub binding_for-unbind :
    (target other : FeishuTarget) (owner : Option String) (d e : FeishuRoutingDocument) (now : ℕ)
    (report : UnbindReport)
    → IsConsistent d
    → unbind target owner d now ≡ returned (e, some report)
    → target_key target ≢ target_key other
    → (binding_for e target ≡ none)
      × (binding_for e other ≡ binding_for d other)
      × (serving_team (bound_plan e.bindings target) ≡ report.next_serving_team_name)
unfolding unbind binding_for
binding_for-unbind target other owner d e now report v h n = ground (
  arith,
  unbind_rows_lem (target_key target) owner d.bindings v.distinct_keys,
  find_binding-drop_key (target_key target) (target_key target) d.bindings,
  find_binding-drop_key (target_key target) (target_key other) d.bindings,
)

module _ (team : String) where
  abbrev others : List FeishuBindingRecord → List FeishuBindingRecord
  others = keep (λ row. not (row.team_name == team))

  abbrev other_followers : List FeishuDocSubscriptionRecord → List FeishuDocSubscriptionRecord
  other_followers = keep (λ row. not (follows_as row.team_name team))

  forget_team-others :
      (d : FeishuRoutingDocument) (now : ℕ) {r : FeishuRoutingDocument × ForgetReport}
      → forget_team team d now ≡ returned r
      → (r.0.bindings ≡ others d.bindings)
        × (r.0.subscriptions ≡ other_followers d.subscriptions)
        × (r.0.spaces ≡ d.spaces)
  unfolding forget_team
  forget_team-others d now {r} h = ground (
    arith,
    keep_full (λ row. not (row.team_name == team)) d.bindings,
    keep_full (λ row. not (follows_as row.team_name team)) d.subscriptions,
  )

  forget_team_none :
      (d : FeishuRoutingDocument) (now : ℕ)
      → others d.bindings ≡ d.bindings
      → other_followers d.subscriptions ≡ d.subscriptions
      → keep (λ row. row.team_name == team) d.bindings ≡ []
      → keep (λ row. follows_as row.team_name team) d.subscriptions ≡ []
      → forget_team team d now ≡ returned (d, record { removed = []; subscriptions = [] })
  unfolding forget_team
  forget_team_none d now b s e f = rw (b, s, e, f) (ground arith)

  rows_gone :
      (rows : List FeishuBindingRecord) → keep (λ row. row.team_name == team) (others rows) ≡ []
  rows_gone =
      keep-keep_disjoint (λ row. not (row.team_name == team)) (λ row. row.team_name == team)
        (λ row h. ground arith)

  followers_gone :
      (rows : List FeishuDocSubscriptionRecord)
      → keep (λ row. follows_as row.team_name team) (other_followers rows) ≡ []
  followers_gone =
      keep-keep_disjoint (λ row. not (follows_as row.team_name team))
        (λ row. follows_as row.team_name team) (λ row h. ground arith)

  -- Forgetting a team leaves no row and no subscription of it, and every space; a second time
  -- changes nothing and reports nothing.
  pub forget_team_idem :
      (d : FeishuRoutingDocument) (now later : ℕ) {r : FeishuRoutingDocument × ForgetReport}
      → forget_team team d now ≡ returned r
      → (keep (λ row. row.team_name == team) r.0.bindings ≡ [])
        × (keep (λ row. follows_as row.team_name team) r.0.subscriptions ≡ [])
        × (r.0.spaces ≡ d.spaces)
        × (forget_team team r.0 later ≡ returned (r.0, record { removed = []; subscriptions = [] }))
  forget_team_idem d now later {r} h =
      let (b, s, sp) = forget_team-others d now h in
      let rows : keep (λ row. row.team_name == team) r.0.bindings ≡ [] =
        rw b (rows_gone d.bindings) in
      let followers : keep (λ row. follows_as row.team_name team) r.0.subscriptions ≡ [] =
        rw s (followers_gone d.subscriptions) in
      (
        rows,
        followers,
        sp,
        forget_team_none r.0 later
            (rw b (keep-keep (λ row. not (row.team_name == team)) d.bindings))
            (rw s (keep-keep (λ row. not (follows_as row.team_name team)) d.subscriptions)) rows
            followers,
      )

  -- Forgetting a team keeps the rows and the subscriptions of any other team, in their order.
  pub forget_team_keeps :
      (other : String) (d : FeishuRoutingDocument) (now : ℕ)
      {r : FeishuRoutingDocument × ForgetReport}
      → forget_team team d now ≡ returned r
      → team ≢ other
      → (keep (λ row. row.team_name == other) r.0.bindings
          ≡ keep (λ row. row.team_name == other) d.bindings)
        × (keep (λ row. follows_as row.team_name (other)) r.0.subscriptions
            ≡ keep (λ row. follows_as row.team_name other) d.subscriptions)
  forget_team_keeps other d now {r} h n =
      let (b, s, sp) = forget_team-others d now h in
      (
        rw b (
            keep-keep_of_imp (λ row. not (row.team_name == team)) (λ row. row.team_name == other)
              (λ row e. ground arith) d.bindings),
        rw s (
            keep-keep_of_imp (λ row. not (follows_as row.team_name team))
              (λ row. follows_as row.team_name other) (λ row e. ground arith) d.subscriptions),
      )

-- A topic's root is learned once: a fill of an unrooted topic row writes that one field and leaves
-- every other row alone, and a later fill with any root changes nothing.
pub fill_topic_root_once :
    (target other : FeishuTarget) (root again : String) (d : FeishuRoutingDocument) (now later : ℕ)
    (row : FeishuBindingRecord) {r : FeishuRoutingDocument × Unit {0}}
    → fill_topic_root target root d now ≡ returned r
    → target.kind ≡ FeishuTargetKind.topic
    → binding_for d target ≡ some row
    → row.root_message_id ≡ none
    → target_key target ≢ target_key other
    → (binding_for r.0 target ≡ some (record row { root_message_id = some root }))
      × (binding_for r.0 other ≡ binding_for d other)
      × (fill_topic_root target again r.0 later ≡ returned (r.0, tt))
unfolding fill_topic_root binding_for
fill_topic_root_once target other root again d now later row {r} h k e u n = ground (
  arith,
  find_binding-set_row (λ x. record x { root_message_id = some root }) (λ x. refl)
      (target_key target) (target_key target) d.bindings,
  find_binding-set_row (λ x. record x { root_message_id = some root }) (λ x. refl)
      (target_key target) (target_key other) d.bindings,
)
