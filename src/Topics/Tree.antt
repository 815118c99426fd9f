-- ===== src/Topics/Tree.antt =====
-- server/src/topic_handler/mod.rs: the nodes of the tree. A `RwLock` is its content, since each
-- operation is modelled from its start to its end.
use t1_tp.Common.{
  ℕ, Bool, true, false, ◌&&◌, List, [], ◌∷◌, if◌then◌else◌, Option, none, some, is_empty, same_text,
}
use t1_tp.Common.Map.{Map, text_key, texts_key}
use t1_tp.Packets.Header.{QosLevel}
use t1_tp.Packets.Publish.{Publish}
use t1_tp.Topics.Names.{Level}

abbrev pub ClientId : Type 0
ClientId = List ℕ

pub record SubscriptionData : Type 0 where
  pub qos : QosLevel

abbrev pub Subscribers : Type 0
Subscribers = Map ClientId SubscriptionData

abbrev pub Subscriptions : Type 0
Subscriptions = Map (List Level) Subscribers

-- `Topic`: subtopics, subscribers, multilevel subscribers, single level subscriptions, and the
-- retained message; and the table of a topic's subtopics.
mutual
  pub data Topic : Type 0 where
    topic : Subtopics → Subscribers → Subscribers → Subscriptions → Option Publish → Topic

  pub data Subtopics : Type 0 where
    nil : Subtopics
    child : Level → Topic → Subtopics → Subtopics

abbrev pub subtopics : Topic → Subtopics
subtopics (topic s u m w r) = s

abbrev pub subscribers : Topic → Subscribers
subscribers (topic s u m w r) = u

abbrev pub multilevel_subscribers : Topic → Subscribers
multilevel_subscribers (topic s u m w r) = m

abbrev pub singlelevel_subscriptions : Topic → Subscriptions
singlelevel_subscriptions (topic s u m w r) = w

abbrev pub retained_message : Topic → Option Publish
retained_message (topic s u m w r) = r

abbrev pub with_subtopics : Topic → Subtopics → Topic
with_subtopics (topic s u m w r) s' = topic s' u m w r

-- `Topic::new`
abbrev pub new : Topic
new = topic nil [] [] [] none

-- The table of subtopics: `get`, `insert` (also through `entry`, and for a node that changed in
-- place) and `remove`.
unfoldable pub find : Level → Subtopics → Option Topic
find name nil = none
find name (child n t rest) = if same_text n name then some t else find name rest

unfoldable pub put : Level → Topic → Subtopics → Subtopics
put name t nil = child name t nil
put name t (child n u rest) =
    let more = put name t rest in if same_text n name then child n t rest else child n u more

unfoldable pub delete : Level → Subtopics → Subtopics
delete name nil = nil
delete name (child n u rest) =
    let more = delete name rest in if same_text n name then more else child n u more

abbrev pub no_subtopics : Subtopics → Bool
no_subtopics nil = true
no_subtopics (child n t rest) = false

abbrev pub is_none {ℓ} : {A : Type ℓ} → Option A → Bool
is_none none = true
is_none (some a) = false

-- `Topic::is_empty` and `Topic::is_empty_mut`
unfoldable pub is_empty_topic : Topic → Bool
is_empty_topic (topic s u m w r) =
    no_subtopics s && (is_empty u && (is_empty m && (is_empty w && is_none r)))

-- `Topic::clean`, on the table of subtopics
unfoldable pub clean_one : Level → Subtopics → Option Topic → Subtopics
clean_one name s none = s
clean_one name s (some node) = if is_empty_topic node then delete name s else s

unfoldable pub clean : List Level → Subtopics → Subtopics
unfolding clean_one
clean [] s = s
clean (name ∷ names) s = clean names (clean_one name s (find name s))
