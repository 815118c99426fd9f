-- ===== src/Topics/Handler.antt =====
-- server/src/topic_handler/mod.rs: the operations that the server calls, over whole packets. A handler
-- is the root of its tree.
pub mod Subscriptions
use t1_tp.Common.{ℕ, Bool, true, false, List, [], ◌∷◌, ◌++◌}
use t1_tp.Packets.Filter.{TopicFilter}
use t1_tp.Packets.Publish.{Publish}
use t1_tp.Packets.Subscribe.{Subscribe}
use t1_tp.Packets.Unsubscribe.{Unsubscribe}
use t1_tp.Topics.Names.{levels}
use t1_tp.Topics.Tree.{ClientId, Topic}
use t1_tp.Topics.Subscribing
use t1_tp.Topics.Publishing
use t1_tp.Topics.Publishing.{Message}

-- The loop of `TopicHandler::subscribe`: the retained packets come in the order of the filters.
unfoldable pub subscribe_topics : List TopicFilter → Topic → ClientId → Topic × List Publish
subscribe_topics [] root client_id = (root, [])
subscribe_topics (t ∷ topics) root client_id =
    let (root', retained) =
      Subscribing.subscribe (levels t.name) root client_id (record { qos = t.qos }) true in
    let (root'', more) = subscribe_topics topics root' client_id in (root'', retained ++ more)

-- `TopicHandler::subscribe`
unfoldable pub subscribe : Subscribe → Topic → ClientId → Topic × List Publish
subscribe packet root client_id = subscribe_topics packet.topics root client_id

-- `TopicHandler::publish`
unfoldable pub publish : Publish → Topic → Topic × List Message
publish packet root = Publishing.publish (levels packet.topic_name) root packet true

-- The loop of `TopicHandler::unsubscribe`
unfoldable pub unsubscribe_topics : List TopicFilter → Topic → ClientId → Topic
unsubscribe_topics [] root client_id = root
unsubscribe_topics (t ∷ topics) root client_id =
    unsubscribe_topics topics (Subscribing.unsubscribe (levels t.name) root client_id) client_id

-- `TopicHandler::unsubscribe`
unfoldable pub unsubscribe : Unsubscribe → Topic → ClientId → Topic
unsubscribe packet root client_id = unsubscribe_topics packet.topic_filters root client_id

-- `TopicHandler::remove_client`
unfoldable pub remove_client : Topic → ClientId → Topic
remove_client root client_id = Subscribing.remove_client root client_id
