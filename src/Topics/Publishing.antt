-- ===== src/Topics/Publishing.antt =====
-- server/src/topic_handler/mod.rs: publishing a packet to the subscribers of its topic.
use t1_tp.Common.{Bool, false, not, ◌&&◌, List, [], ◌∷◌, ◌++◌, if◌then◌else◌, none, some, is_empty}
use t1_tp.Packets.Publish.{Publish, set_max_qos, set_retain_flag}
use t1_tp.Topics.Names.{Level, starts_with_unmatch, topic_filter_matches}
use t1_tp.Topics.Tree.{
  ClientId, Subscribers, Subscriptions, Topic, topic, subtopics, with_subtopics, new, find, put,
}
use t1_tp.Topics.Subscribing.{settle}

-- `Message`: a packet on its way to a client.
pub record Message : Type 0 where
  pub client_id : ClientId
  pub packet : Publish

-- `current_matching_single_level_subs`
unfoldable pub matching_single_level_subs : List Level → Subscriptions → Subscribers
matching_single_level_subs [] w = []
matching_single_level_subs (l ∷ ls) [] = []
matching_single_level_subs (l ∷ ls) ((filter, subs) ∷ w) =
    (if topic_filter_matches filter (l ∷ ls) then subs else [])
    ++ matching_single_level_subs (l ∷ ls) w

abbrev here_subs : List Level → Subscribers → Subscribers
here_subs [] u = u
here_subs (l ∷ ls) u = []

-- `current_matching_subs`
unfoldable pub current_matching_subs : List Level → Topic → Bool → Subscribers
current_matching_subs name (topic s u m w r) is_root =
    (if not (is_root && starts_with_unmatch name)
      then matching_single_level_subs name w ++ m
      else [])
    ++ here_subs name u

-- `send_publish`: one message for each entry, at the level of its subscription at most.
unfoldable pub send_publish : Publish → Subscribers → List Message
send_publish packet [] = []
send_publish packet ((id, sub_data) ∷ subs) =
    record { client_id = id; packet = set_max_qos packet sub_data.qos } ∷ send_publish packet subs

-- `update_retained_message`
unfoldable pub update_retained_message : Topic → Publish → Topic
update_retained_message (topic s u m w r) packet =
    if packet.retain_flag
    then topic s u m w (if is_empty packet.payload then none else some packet)
    else topic s u m w r

-- `publish`: the new tree, and the messages in the order in which they are sent.
unfoldable pub publish : List Level → Topic → Publish → Bool → Topic × List Message
publish [] t packet is_root = (
  update_retained_message t packet,
  send_publish (set_retain_flag packet false) (current_matching_subs [] t is_root),
)
publish (current ∷ rest) t packet is_root =
    let sent =
      send_publish (set_retain_flag packet false)
        (current_matching_subs (current ∷ rest) t is_root) in
    elim (find current (subtopics t)) [
      | none ↦
          let (sub, more) = publish rest new packet false in
          if packet.retain_flag && not (is_empty packet.payload)
          then (with_subtopics t (put current sub (subtopics t)), sent ++ more)
          else (t, sent)
      | some old ↦
          let (sub, more) = publish rest old packet false in (settle current sub t, sent ++ more)
    ]
