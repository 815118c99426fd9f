-- ===== src/Tests/Topics.antt =====
-- The tree of topics on concrete filters and clients.
use t1_tp.Common.{
  ◌≢◌, ◌⊎◌, ◌≤◌, length, leb, ◌≡◌, refl, true, false, ◌&&◌, List, [], ◌∷◌, if◌then◌else◌, none,
  some, same_text,
}
use t1_tp.Common.Map.{same_texts}
use t1_tp.Packets.Header.{qos_level0, qos_level1}
use t1_tp.Packets.Publish.{Publish, set_retain_flag}
use t1_tp.Packets.Subscribe.{Subscribe}
use t1_tp.Packets.Unsubscribe.{Unsubscribe}
use t1_tp.Topics.Names.{
  last_is_hash, Level, plus, hash, kind, levels, match_parts, topic_filter_matches,
}
use t1_tp.Topics.Tree.{ClientId, SubscriptionData, Topic, new}
use t1_tp.Topics.Subscribing
use t1_tp.Topics.Publishing
use t1_tp.Topics.Held.{held}
use t1_tp.Topics.Held.Subscribed.{held-subscribe}
use t1_tp.Topics.Held.Unsubscribed.{held-unsubscribe, plus_at_end}
use t1_tp.Topics.Held.Kept.{held-publish, held-unsubscribe_plus}
use t1_tp.Topics.Matching.{levels_match, serves, topic_filter_matches-levels_match}
use t1_tp.Topics.Delivery.{Among, message, publish-delivers}
use t1_tp.Topics.Handler
use t1_tp.Topics.Handler.Subscriptions.{
  granted, left, publish-subscribe, held-subscribe_packet, held-unsubscribe_packet,
}

abbrev level_a : Level
level_a = b'a' ∷ []

abbrev level_b : Level
level_b = b'b' ∷ []

abbrev client : ClientId
client = b'c' ∷ b'1' ∷ []

abbrev other_client : ClientId
other_client = b'c' ∷ b'2' ∷ []

abbrev at_level1 : SubscriptionData
at_level1 = record { qos = qos_level1 }

-- Published under `a/b`
abbrev packet : Publish
packet = record {
  packet_id = none;
  topic_name = b'a' ∷ b'/' ∷ b'b' ∷ [];
  qos = qos_level0;
  retain_flag = false;
  dup_flag = false;
  payload = b'x' ∷ [];
}

-- The filter `a/+`
abbrev filter : List Level
filter = level_a ∷ plus ∷ []

-- The filter `a/b`
abbrev plain : List Level
plain = level_a ∷ level_b ∷ []

-- The tree in which the client has asked for `a/+`
abbrev root : Topic
root = (Subscribing.subscribe filter new client at_level1 true).0

abbrev asked : Subscribe
asked = record {
  packet_identifier = 7;
  topics = record { name = b'a' ∷ b'/' ∷ b'b' ∷ []; qos = qos_level1 } ∷ [];
}

abbrev given_up : Unsubscribe
given_up = record {
  packet_id = 8;
  topic_filters = record { name = b'a' ∷ b'/' ∷ b'b' ∷ []; qos = qos_level0 } ∷ [];
}

publish-subscribe_example :
    Among
      (message (set_retain_flag packet false) client at_level1)
      (Handler.publish packet (Subscribing.subscribe filter new client at_level1 true).0).1
unfolding serves topic_filter_matches match_parts kind levels
publish-subscribe_example = publish-subscribe filter packet new client at_level1 refl refl refl

held-root : held filter root client ≡ some at_level1
held-root = held-subscribe filter filter new client client at_level1 true refl

publish-delivers_example :
    Among
      (message (set_retain_flag packet false) client at_level1)
      (Publishing.publish plain root packet true).1
unfolding serves topic_filter_matches match_parts kind
publish-delivers_example =
    publish-delivers packet client at_level1 filter plain root true held-root refl refl

held-subscribe_example :
    held plain (Subscribing.subscribe filter root other_client at_level1 true).0 client ≡ (
      if same_texts filter plain && same_text other_client client
      then some at_level1
      else held plain root client)
held-subscribe_example = held-subscribe filter plain root other_client client at_level1 true refl

held-unsubscribe_example :
    held plain (Subscribing.unsubscribe plain root client) client
    ≡ (if same_texts plain plain && same_text client client then none else held plain root client)
unfolding plus_at_end kind
held-unsubscribe_example = held-unsubscribe plain plain root client client refl refl

held-subscribe_packet_example : held plain (Handler.subscribe asked root client).0 client ≡ (
    if same_text client client
    then granted asked.topics plain (held plain root client)
    else held plain root client)
unfolding levels
held-subscribe_packet_example = held-subscribe_packet asked plain root client client (refl, tt)

held-unsubscribe_packet_example : held plain (Handler.unsubscribe given_up root client) client ≡ (
    if same_text client client
    then left given_up.topic_filters plain (held plain root client)
    else held plain root client)
unfolding levels plus_at_end kind
held-unsubscribe_packet_example =
    held-unsubscribe_packet given_up plain root client client ((refl, refl), tt)

topic_filter_matches-levels_match_example :
    (topic_filter_matches filter plain
      ≡ (leb (length filter) (length plain) && levels_match filter plain))
    × (length filter ≤ length plain
        → (length filter ≡ length plain) ⊎ (last_is_hash filter ≡ true)
        → match_parts filter plain ≢ none)
topic_filter_matches-levels_match_example = topic_filter_matches-levels_match filter plain refl

-- `+/#` matches `a` by section 4.7.1.
parent_missed :
    (levels_match (plus ∷ hash ∷ []) (level_a ∷ []) ≡ true)
    × (topic_filter_matches (plus ∷ hash ∷ []) (level_a ∷ []) ≡ false)
unfolding levels_match topic_filter_matches kind
parent_missed = (refl, refl)

held-publish_example :
    held filter (Publishing.publish plain root packet true).0 client ≡ held filter root client
held-publish_example = held-publish plain root packet true client filter

held-unsubscribe_plus_example :
    held filter (Subscribing.unsubscribe filter root client) client ≡ held filter root client
unfolding plus_at_end kind
held-unsubscribe_plus_example = held-unsubscribe_plus filter root client client refl filter
