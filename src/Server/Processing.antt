-- ===== src/Server/Processing.antt =====
-- server/src/server/packet_processing.rs and mod.rs: the state of the server and the jobs of its pool.
-- A job is one step: what the threads of the pool do at the same time comes in some order of whole jobs.
-- The channel of a publication is the list of its messages, and the time does not pass during a job.
pub mod Incoming
pub mod Jobs
pub mod Delivered
pub mod Terminates
pub mod Drained
use t1_tp.Common.{
  ℕ, Bool, true, false, List, [], ◌∷◌, ◌++◌, is_empty, Option, none, some, if◌then◌else◌,
}
use t1_tp.Packets.Error.{PacketResult}
use t1_tp.Packets.Header.{qos_level1}
use t1_tp.Packets.Publish.{Publish}
use t1_tp.Packets.Publish
use t1_tp.Packets.Subscribe.{Subscribe, response}
use t1_tp.Packets.Subscribe
use t1_tp.Packets.Unsubscribe.{Unsubscribe}
use t1_tp.Packets.Suback
use t1_tp.Packets.Acks.{new_puback, encode_puback, new_unsuback, encode_unsuback}
use t1_tp.Topics.Tree.{ClientId, Topic}
use t1_tp.Topics.Handler
use t1_tp.Topics.Publishing.{Message}
use t1_tp.Server.Result.{ServerResult, ok, err, panic}
use t1_tp.Server.Action.{Action, pure, lift, of_packet, ◌>>=◌, ◌>>◌}
use t1_tp.Server.Client.{Client, StreamIo, send_packet, send_publish}
use t1_tp.Server.Manager.{ClientsManager, client_do}

-- What the pool is asked for: the closures of `to_threadpool`, `broadcast_publish` and
-- `publish_dispatch` with what they hold.
pub data Job : Type 0 where
  handling_publish : Publish → ClientId → Job
  handling_subscribe : Subscribe → ClientId → Job
  handling_unsubscribe : Unsubscribe → ClientId → Job
  dispatching : List Message → Job
  sending : ClientId → Publish → Job

-- `Server`, without its configuration; the jobs are those that the pool has still to run.
pub record Server (S I L : Type 0) : Type 0 where
  pub clients_manager : ClientsManager S I L
  pub topic_handler : Topic
  pub pool : List Job

module _ {S I L : Type 0} where
  -- An operation under the lock of the manager
  unfoldable pub on_manager :
      {A : Type 0} → Action (ClientsManager S I L) A → Action (Server S I L) A
  on_manager action s =
      let (result, manager) = action s.clients_manager in
      (result, record s { clients_manager = manager })

  -- `clients_manager.read()?.client_do(…)`
  unfoldable pub on_client :
      {A : Type 0} → ClientId → Action (Client S I) A → Action (Server S I L) A
  on_client id action = on_manager (client_do id action)

  -- `pool.execute(…)`
  unfoldable pub execute : Job → Action (Server S I L) (Unit {0})
  execute job s = (ok tt, record s { pool = s.pool ++ (job ∷ []) })

  -- `topic_handler.publish`
  unfoldable pub publish_topics : Publish → Action (Server S I L) (List Message)
  publish_topics publish s =
      let (root, messages) = Handler.publish publish s.topic_handler in
      (ok messages, record s { topic_handler = root })

  -- `topic_handler.subscribe`
  unfoldable pub subscribe_topics : Subscribe → ClientId → Action (Server S I L) (List Publish)
  subscribe_topics subscribe id s =
      let (root, retained) = Handler.subscribe subscribe s.topic_handler id in
      (ok retained, record s { topic_handler = root })

  -- `topic_handler.unsubscribe`
  unfoldable pub unsubscribe_topics : Unsubscribe → ClientId → Action (Server S I L) (Unit {0})
  unsubscribe_topics unsubscribe id s =
      (ok tt, record s { topic_handler = Handler.unsubscribe unsubscribe s.topic_handler id })

  -- `topic_handler.remove_client`
  unfoldable pub remove_topics : ClientId → Action (Server S I L) (Unit {0})
  remove_topics id s =
      (ok tt, record s { topic_handler = Handler.remove_client s.topic_handler id })

  -- `broadcast_publish`: the dispatcher gets the messages that the topics give.
  unfoldable pub broadcast_publish : Publish → Action (Server S I L) (Unit {0})
  broadcast_publish publish = do messages ← publish_topics publish; execute (dispatching messages)

  -- `publish_dispatch` for each message of `publish_dispatcher_loop`
  unfoldable pub publish_dispatcher_loop : List Message → Action (Server S I L) (Unit {0})
  publish_dispatcher_loop [] = pure tt
  publish_dispatcher_loop (message ∷ messages) = do
    execute (sending message.client_id message.packet)
    publish_dispatcher_loop messages

  -- `send_last_will`
  unfoldable pub send_last_will : Publish → Action (Server S I L) (Unit {0})
  send_last_will last_will = broadcast_publish (Publish.set_max_qos last_will qos_level1)

module _ {S I : Type 0} (io : StreamIo S) where
  -- The closures that answer a packet: the answer that cannot be built is an error.
  unfoldable pub send_puback : ℕ → Action (Client S I) (Unit {0})
  send_puback packet_id = do
    puback ← lift (of_packet (new_puback packet_id))
    send_packet io (encode_puback puback)

  unfoldable pub send_suback : Subscribe → Action (Client S I) (Unit {0})
  send_suback subscribe = do
    suback ← lift (of_packet (response subscribe))
    send_packet io (Suback.encode suback)

  unfoldable pub send_unsuback : ℕ → Action (Client S I) (Unit {0})
  send_unsuback packet_id = do
    unsuback ← lift (of_packet (new_unsuback packet_id))
    send_packet io (encode_unsuback unsuback)

  -- The loop over the retained packets
  unfoldable pub send_retained : ℕ → List Publish → Action (Client S I) (Unit {0})
  send_retained now [] = pure tt
  send_retained now (retained ∷ more) = do send_publish io retained now; send_retained now more

module _ {S I L : Type 0} (io : StreamIo S) where
  -- `handle_publish`
  unfoldable pub handle_publish : Publish → ClientId → Action (Server S I L) (Unit {0})
  handle_publish publish id = do
    broadcast_publish (Publish.set_max_qos publish qos_level1)
    elim publish.packet_id [
      | none ↦ pure tt
      | some packet_id ↦ on_client id (send_puback io packet_id)
    ]

  -- `handle_subscribe`
  unfoldable pub handle_subscribe : ℕ → Subscribe → ClientId → Action (Server S I L) (Unit {0})
  handle_subscribe now subscribe id = do
    let lowered = Subscribe.set_max_qos subscribe qos_level1
    retained ← subscribe_topics lowered id
    on_client id (send_suback io lowered)
    if is_empty retained then pure tt else on_client id (send_retained io now retained)

  -- `handle_unsubscribe`
  unfoldable pub handle_unsubscribe : Unsubscribe → ClientId → Action (Server S I L) (Unit {0})
  handle_unsubscribe unsubscribe id = do
    unsubscribe_topics unsubscribe id
    on_client id (send_unsuback io unsubscribe.packet_id)

  -- What a job does. Its errors are only logged; a job that panics leaves what it had done.
  unfoldable pub run_job : ℕ → Job → Action (Server S I L) (Unit {0})
  run_job now (handling_publish publish id) = handle_publish publish id
  run_job now (handling_subscribe subscribe id) = handle_subscribe now subscribe id
  run_job now (handling_unsubscribe unsubscribe id) = handle_unsubscribe unsubscribe id
  run_job now (dispatching messages) = publish_dispatcher_loop messages
  run_job now (sending id publish) = on_client id (λ client. send_publish io publish now client)
