-- ===== src/Topics/Handler/Subscriptions.antt =====
-- server/src/topic_handler/mod.rs: whole SUBSCRIBE and UNSUBSCRIBE packets over the map of
-- subscriptions, and publishing after a subscription.
use t1_tp.Common.{
  ◌∙◌, ◌≡◌, true, false, List, [], ◌∷◌, if◌then◌else◌, Option, none, some, All, arith, same_text,
  same_text_iff,
}
use t1_tp.Common.Map.{same_texts, same_texts_iff}
use t1_tp.Packets.Filter.{TopicFilter}
use t1_tp.Packets.Publish.{Publish, set_retain_flag}
use t1_tp.Packets.Subscribe.{Subscribe}
use t1_tp.Packets.Unsubscribe.{Unsubscribe}
use t1_tp.Topics.Names.{Level, levels}
use t1_tp.Topics.Tree.{ClientId, SubscriptionData, Topic}
use t1_tp.Topics.Subscribing
use t1_tp.Topics.Held.{held, hash_ends}
use t1_tp.Topics.Held.Subscribed.{held-subscribe}
use t1_tp.Topics.Held.Unsubscribed.{held-unsubscribe, plus_at_end}
use t1_tp.Topics.Matching.{serves}
use t1_tp.Topics.Delivery.{Among, message, hidden, publish-delivers}
use t1_tp.Topics.Handler.{subscribe, subscribe_topics, unsubscribe, unsubscribe_topics, publish}

-- The subscription to the levels `g` after the filters are asked for: the last of them that has those
-- levels decides.
abbrev pub granted :
    List TopicFilter → List Level → Option SubscriptionData → Option SubscriptionData
granted [] g old = old
granted (t ∷ topics) g old =
    granted topics g (if same_texts (levels t.name) g then some (record { qos = t.qos }) else old)

-- The subscription to the levels `g` after the filters are given up.
abbrev pub left : List TopicFilter → List Level → Option SubscriptionData → Option SubscriptionData
left [] g old = old
left (t ∷ topics) g old = left topics g (if same_texts (levels t.name) g then none else old)

abbrev pub EndsInHash : TopicFilter → Type 0
EndsInHash t = hash_ends (levels t.name) ≡ true

abbrev pub IsLeft : TopicFilter → Type 0
IsLeft t = (hash_ends (levels t.name) ≡ true) × (plus_at_end (levels t.name) ≡ false)

held-subscribe_topics :
    (topics : List TopicFilter) (g : List Level) (root : Topic) (c k : ClientId)
    → All EndsInHash topics
    → held g (subscribe_topics topics root c).0 k
      ≡ (if same_text c k then granted topics g (held g root k) else held g root k)
unfolding subscribe_topics
held-subscribe_topics [] g root c k h = ground arith
held-subscribe_topics (t ∷ topics) g root c k h =
    let data' : SubscriptionData = record { qos = t.qos } in
    let root' = (Subscribing.subscribe (levels t.name) root c data' true).0 in
    rw
      (
        held-subscribe_topics topics g root' c k h.1,
        held-subscribe (levels t.name) g root c k data' true h.0,
      )
      (ground arith)

-- After a SUBSCRIBE packet whose filters have `#` at most as their last level, its client holds for each
-- filter the level that the packet last asks for it, or what it held if the packet does not name it;
-- the other clients hold what they held.
pub held-subscribe_packet :
    (packet : Subscribe) (g : List Level) (root : Topic) (c k : ClientId)
    → All EndsInHash packet.topics
    → held g (subscribe packet root c).0 k
      ≡ (if same_text c k then granted packet.topics g (held g root k) else held g root k)
unfolding subscribe
held-subscribe_packet packet g root c k h = held-subscribe_topics packet.topics g root c k h

held-unsubscribe_topics :
    (topics : List TopicFilter) (g : List Level) (root : Topic) (c k : ClientId)
    → All IsLeft topics
    → held g (unsubscribe_topics topics root c) k
      ≡ (if same_text c k then left topics g (held g root k) else held g root k)
unfolding unsubscribe_topics
held-unsubscribe_topics [] g root c k h = ground arith
held-unsubscribe_topics (t ∷ topics) g root c k h =
    let root' = Subscribing.unsubscribe (levels t.name) root c in
    rw
      (
        held-unsubscribe_topics topics g root' c k h.1,
        held-unsubscribe (levels t.name) g root c k h.0.0 h.0.1,
      )
      (ground arith)

-- After an UNSUBSCRIBE packet, if each of its filters has `#` at most as its last level and its walk
-- does not end at a `+`, its client holds none of them; what else is held is what it was.
pub held-unsubscribe_packet :
    (packet : Unsubscribe) (g : List Level) (root : Topic) (c k : ClientId)
    → All IsLeft packet.topic_filters
    → held g (unsubscribe packet root c) k
      ≡ (if same_text c k then left packet.topic_filters g (held g root k) else held g root k)
unfolding unsubscribe
held-unsubscribe_packet packet g root c k h =
    held-unsubscribe_topics packet.topic_filters g root c k h

-- A client that subscribes to a filter that the tree serves for a name, with `#` at most as its last
-- level, gets what is published under the name next: without its retain flag and at the level of the
-- subscription at most. Names that begin with `$` need a filter that does not begin with a wildcard.
pub publish-subscribe :
    (f : List Level) (p : Publish) (root : Topic) (c : ClientId) (d : SubscriptionData)
    → hash_ends f ≡ true
    → serves f (levels p.topic_name) ≡ true
    → hidden true f (levels p.topic_name) ≡ false
    → Among
        (message (set_retain_flag p false) c d)
        (publish p (Subscribing.subscribe f root c d true).0).1
unfolding publish
publish-subscribe f p root c d ends served open_root =
    publish-delivers p c d f (levels p.topic_name) (Subscribing.subscribe f root c d true).0 true
      (held-subscribe f f root c c d true ends
        ∙ ground (arith, same_texts_iff f f, same_text_iff c c))
      served open_root
