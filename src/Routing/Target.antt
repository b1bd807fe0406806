-- ===== src/Routing/Target.antt =====
-- routing/target.ts: the Feishu target model.
use dreamux.Base.{
  String, Bool, true, false, not, ◌&&◌, Option, none, some, List, [], ◌∷◌, if◌then◌else◌, ◌==◌,
  dec_of_test, ◌≡◌, ◌↔◌, arith,
}

pub data FeishuTargetKind : Type 0 where
  p2p group topic : FeishuTargetKind

pub record FeishuTarget : Type 0 where
  pub kind : FeishuTargetKind
  pub chat_id : String
  pub thread_id : Option String

unfoldable pub chat_target : String → String → FeishuTarget
chat_target chat_id raw_type = record {
  kind = if raw_type == "p2p" then p2p else group;
  chat_id = chat_id;
  thread_id = none;
}

unfoldable pub topic_target : String → String → FeishuTarget
topic_target chat_id thread_id = record {
  kind = topic;
  chat_id = chat_id;
  thread_id = some thread_id;
}

abbrev pub or_text : Option String → String → String
or_text none d = d
or_text (some s) _ = s

unfoldable pub message_target : String → Option String → Option String → FeishuTarget
unfolding chat_target topic_target
message_target chat_id chat_type thread_id =
    let kind = or_text chat_type "group" in
    if not (kind == "p2p") && not (or_text thread_id "" == "")
    then topic_target chat_id (or_text thread_id "")
    else chat_target chat_id kind

-- The group that a topic stands in; `chatTarget(chatId, 'group')`.
unfoldable pub group_target : String → FeishuTarget
group_target chat_id = record { kind = group; chat_id = chat_id; thread_id = none }

abbrev containing_of : FeishuTargetKind → FeishuTarget → FeishuTarget
containing_of topic target = record { kind = group; chat_id = target.chat_id; thread_id = none }
containing_of p2p target = target
containing_of group target = target

unfoldable pub containing_chat : FeishuTarget → FeishuTarget
containing_chat target = containing_of target.kind target

-- What the key of a binding row tells apart; the source spells it as one text with NUL separators.
pub data TargetKey : Type 0 where
  p2p_key group_key : String → TargetKey
  topic_key : String → String → TargetKey

abbrev pub key_of : FeishuTargetKind → FeishuTarget → TargetKey
key_of p2p t = p2p_key t.chat_id
key_of group t = group_key t.chat_id
key_of topic t = topic_key t.chat_id (or_text t.thread_id "")

unfoldable pub target_key : FeishuTarget → TargetKey
target_key t = key_of t.kind t

abbrev pub same_key : TargetKey → TargetKey → Bool
same_key (p2p_key a) (p2p_key b) = a == b
same_key (group_key a) (group_key b) = a == b
same_key (topic_key a c) (topic_key b d) = a == b && c == d
same_key _ _ = false

pub same_key_iff : (k j : TargetKey) → (same_key k j ≡ true) ↔ (k ≡ j)
same_key_iff (p2p_key a) (p2p_key b) = ground arith
same_key_iff (group_key a) (group_key b) = ground arith
same_key_iff (topic_key a c) (topic_key b d) = ground arith
same_key_iff _ _ = ground arith

unfoldable pub TargetKey-discrete : Discrete TargetKey
unfolding dec_of_test
TargetKey-discrete k j = dec_of_test (same_key k j) (same_key_iff k j)

infix 50 ◌=key=◌
abbrev pub ◌=key=◌ : TargetKey → TargetKey → Bool
a =key= b = elim (TargetKey-discrete a b) [ yes _ ↦ true | no _ ↦ false ]

unfoldable pub same_target : FeishuTarget → FeishuTarget → Bool
same_target left right = target_key left =key= target_key right

abbrev chain_of : FeishuTargetKind → FeishuTarget → List FeishuTarget
chain_of topic t = t ∷ containing_chat t ∷ []
chain_of p2p t = t ∷ []
chain_of group t = t ∷ []

unfoldable pub resolution_chain : FeishuTarget → List FeishuTarget
resolution_chain t = chain_of t.kind t

abbrev bindable : FeishuTargetKind → Bool
bindable p2p = false
bindable group = true
bindable topic = true

unfoldable pub is_bindable_target : FeishuTarget → Bool
is_bindable_target t = bindable t.kind
