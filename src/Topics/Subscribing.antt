-- ===== src/Topics/Subscribing.antt =====
-- server/src/topic_handler/mod.rs: subscribing to a filter, and the retained messages that a new
-- subscription gets; unsubscribing; removing a client.
use t1_tp.Common.{
  Bool, false, ◌&&◌, List, [], ◌∷◌, ◌++◌, if◌then◌else◌, Option, none, some, is_empty, starts_with,
  same_text,
}
use t1_tp.Common.Map.{get, insert, remove, text_key, texts_key}
use t1_tp.Packets.Header.{QosLevel}
use t1_tp.Packets.Publish.{Publish, set_max_qos}
use t1_tp.Topics.Names.{Level, hash, dollar, single, multi, named, kind}
use t1_tp.Topics.Tree.{
  ClientId, SubscriptionData, Subscribers, Subscriptions, Topic, topic, Subtopics, nil, child,
  subtopics, with_subtopics, new, find, put, clean, is_empty_topic,
}

-- `get_retained`
unfoldable pub get_retained : Option Publish → QosLevel → List Publish
get_retained none max_qos = []
get_retained (some retained) max_qos = set_max_qos retained max_qos ∷ []

-- `get_retained_messages` with `handle_retained_messages_level`. The walk over the children stands
-- in `retained_all`, the one child that is looked up in `retained_named`.
unfoldable mutual
  pub retained_messages : Topic → List Level → QosLevel → Bool → List Publish
  retained_messages (topic s u m w r) [] max_qos unmatch = get_retained r max_qos
  retained_messages (topic s u m w r) (current ∷ rest) max_qos unmatch = elim (kind current) [
    | multi ↦ get_retained r max_qos ++ retained_all s (hash ∷ []) max_qos unmatch
    | single ↦ retained_all s rest max_qos unmatch
    | named ↦ retained_named s current rest max_qos
  ]

  pub retained_all : Subtopics → List Level → QosLevel → Bool → List Publish
  retained_all nil filter max_qos unmatch = []
  retained_all (child name t more) filter max_qos unmatch =
      (if unmatch && starts_with dollar name then [] else retained_messages t filter max_qos false)
      ++ retained_all more filter max_qos unmatch

  pub retained_named : Subtopics → Level → List Level → QosLevel → List Publish
  retained_named nil current rest max_qos = []
  retained_named (child name t more) current rest max_qos =
      if same_text name current
      then retained_messages t rest max_qos false
      else retained_named more current rest max_qos

-- The subscribers of one single level filter, `[]` for a filter that has none yet.
abbrev pub entry : List Level → Subscriptions → Subscribers
entry filter w = elim (get filter w) [ none ↦ [] | some subs ↦ subs ]

-- `add_single_level_subscription`
unfoldable pub add_single_level_subscription :
    Topic → List Level → ClientId → SubscriptionData → Bool → Topic × List Publish
add_single_level_subscription (topic s u m w r) filter client_id sub_data is_root =
    let t = topic s u m (insert filter (insert client_id sub_data (entry filter w)) w) r in
    (t, retained_messages t filter sub_data.qos is_root)

-- `add_multi_level_subscription`
unfoldable pub add_multi_level_subscription :
    Topic → List Level → ClientId → SubscriptionData → Bool → Topic × List Publish
add_multi_level_subscription (topic s u m w r) filter client_id sub_data is_root =
    let t = topic s u (insert client_id sub_data m) w r in
    (t, retained_messages t filter sub_data.qos is_root)

-- `subscribe` with `handle_sub_level`: the new tree, and the retained messages for the client.
unfoldable pub subscribe :
    List Level → Topic → ClientId → SubscriptionData → Bool → Topic × List Publish
subscribe [] (topic s u m w r) client_id sub_data is_root =
    (topic s (insert client_id sub_data u) m w r, get_retained r sub_data.qos)
subscribe (current ∷ rest) t client_id sub_data is_root = elim (kind current) [
  | single ↦ add_single_level_subscription t (current ∷ rest) client_id sub_data is_root
  | multi ↦ add_multi_level_subscription t (current ∷ rest) client_id sub_data is_root
  | named ↦ elim (find current (subtopics t)) [
    | none ↦
        let (sub, messages) = subscribe rest new client_id sub_data false in
        (with_subtopics t (put current sub (subtopics t)), messages)
    | some old ↦
        let (sub, messages) = subscribe rest old client_id sub_data false in
        (with_subtopics t (put current sub (subtopics t)), messages)
  ]
]

-- `remove_single_level_subscription`, on the table of subscriptions
unfoldable pub remove_single_level_subscription :
    List Level → ClientId → Subscriptions → Subscriptions
remove_single_level_subscription filter client_id w = elim (get filter w) [
  | none ↦ w
  | some subs ↦
      let left = remove client_id subs in
      if is_empty left then remove filter w else insert filter left w
]

-- What `unsubscribe` does behind the call on a subtopic: a node that is empty goes.
unfoldable pub settle : Level → Topic → Topic → Topic
settle current sub t =
    let s = put current sub (subtopics t) in
    with_subtopics t (if is_empty_topic sub then clean (current ∷ []) s else s)

-- `unsubscribe`. The arm for `+` asks for a level behind it; `+` at the end falls to the last arm.
unfoldable pub unsubscribe : List Level → Topic → ClientId → Topic
unsubscribe [] (topic s u m w r) client_id = topic s (remove client_id u) m w r
unsubscribe (current ∷ rest) (topic s u m w r) client_id =
    let t = topic s u m w r in
    let below : Topic = elim (find current s) [
      | none ↦ t
      | some sub ↦ settle current (unsubscribe rest sub client_id) t
    ] in
    elim (kind current) [
      | single ↦ elim rest [
        | [] ↦ below
        | next ∷ others ↦
            topic s u m (remove_single_level_subscription (current ∷ next ∷ others) client_id w) r
      ]
      | multi ↦ topic s u (remove client_id m) w r
      | named ↦ below
    ]

-- The `retain` of `remove_subscriber`: a filter with no subscribers left goes.
unfoldable pub remove_from_all : ClientId → Subscriptions → Subscriptions
remove_from_all client_id [] = []
remove_from_all client_id ((filter, subs) ∷ w) =
    let left = remove client_id subs in
    let more = remove_from_all client_id w in if is_empty left then more else (filter, left) ∷ more

abbrev pub names : Subtopics → List Level
names nil = []
names (child name t more) = name ∷ names more

-- `remove_client` with `remove_subscriber`
unfoldable mutual
  pub remove_client : Topic → ClientId → Topic
  remove_client (topic s u m w r) client_id =
      topic (clean (names s) (remove_below s client_id)) (remove client_id u) (remove client_id m)
        (remove_from_all client_id w) r

  pub remove_below : Subtopics → ClientId → Subtopics
  remove_below nil client_id = nil
  remove_below (child name t more) client_id =
      child name (remove_client t client_id) (remove_below more client_id)
