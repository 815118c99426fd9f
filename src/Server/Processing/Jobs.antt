-- ===== src/Server/Processing/Jobs.antt =====
-- server/src/server/packet_processing.rs: the jobs that the pool runs, in any order.
use t1_tp.Common.{
  ℕ, ◌≡◌, refl, sym, ◌∙◌, List, [], ◌∷◌, ◌++◌, append-nil, append_assoc, Option, none, some,
  is_empty, if◌then◌else◌,
}
use t1_tp.Packets.Header.{qos_level1}
use t1_tp.Packets.Publish.{Publish}
use t1_tp.Packets.Publish
use t1_tp.Packets.Subscribe
use t1_tp.Topics.Tree.{ClientId, Topic}
use t1_tp.Topics.Handler
use t1_tp.Topics.Publishing.{Message}
use t1_tp.Server.Result.{ok}
use t1_tp.Server.Action.{pure, Action, after}
use t1_tp.Server.Client.{Client, StreamIo}
use t1_tp.Server.Processing.{
  send_retained, send_suback, send_puback, send_unsuback, Subscribe, Job, Server, handling_publish,
  handling_subscribe, handling_unsubscribe, dispatching, sending, on_manager, on_client, execute,
  publish_topics, broadcast_publish, publish_dispatcher_loop, handle_publish, handle_subscribe,
  handle_unsubscribe, subscribe_topics, unsubscribe_topics, run_job,
}

-- The jobs that a dispatcher asks for
abbrev pub sends : List Message → List Job
sends [] = []
sends (message ∷ messages) = sending message.client_id message.packet ∷ sends messages

-- The jobs that a job asks for
abbrev pub spawned : Job → Topic → List Job
spawned (handling_publish publish id) root =
    dispatching (Handler.publish (Publish.set_max_qos publish qos_level1) root).1 ∷ []
spawned (dispatching messages) root = sends messages
spawned _ root = []

module _ {S I L : Type 0} where
  on_client-pool :
      {A : Type 0} (id : ClientId) (action : Action (Client S I) A) (s : Server S I L)
      → (on_client id action s).1.pool ≡ s.pool
  unfolding on_client on_manager
  on_client-pool id action s = refl

  publish_dispatcher_loop-pool :
      (messages : List Message) (s : Server S I L)
      → ((publish_dispatcher_loop messages s).1.pool ≡ s.pool ++ sends messages)
        × ((publish_dispatcher_loop messages s).0 ≡ ok tt)
  unfolding publish_dispatcher_loop execute
  publish_dispatcher_loop-pool [] s = (sym (append-nil s.pool), refl)
  publish_dispatcher_loop-pool (message ∷ messages) s =
      let job = sending message.client_id message.packet in
      let (pool, answer) =
        publish_dispatcher_loop-pool messages (record s { pool = s.pool ++ (job ∷ []) }) in
      (pool ∙ append_assoc s.pool (job ∷ []) (sends messages), answer)

module _ {S I L : Type 0} (io : StreamIo S) where
  answering-pool :
      (packet_id : Option ℕ) (id : ClientId) (s : Server S I L)
      → ((elim packet_id as (λ _. Action (Server S I L) (Unit {0})) [
        | none ↦ pure tt
        | some packet_id ↦ on_client id (send_puback io packet_id)
      ])
          s).1.pool
        ≡ s.pool
  answering-pool none id s = refl
  answering-pool (some packet_id) id s = on_client-pool id (send_puback io packet_id) s

  retained-pool :
      (now : ℕ) (retained : List Publish) (id : ClientId) (s : Server S I L)
      → ((if is_empty retained then pure tt else on_client id (send_retained io now retained))
          s).1.pool
        ≡ s.pool
  retained-pool now [] id s = refl
  retained-pool now (p ∷ more) id s = on_client-pool id (send_retained io now (p ∷ more)) s

  subscribe-pool :
      (now : ℕ) (subscribe : Subscribe) (id : ClientId) (s : Server S I L)
      → (handle_subscribe io now subscribe id s).1.pool ≡ s.pool
  unfolding handle_subscribe subscribe_topics
  subscribe-pool now subscribe id s =
      let (root, retained) =
        Handler.subscribe (Subscribe.set_max_qos subscribe qos_level1) s.topic_handler id in
      let s' : Server S I L = record s { topic_handler = root } in
      after (λ s''. s''.pool ≡ s.pool)
        (on_client id (send_suback io (Subscribe.set_max_qos subscribe qos_level1)))
        (λ _. if is_empty retained then pure tt else on_client id (send_retained io now retained))
        s' (on_client-pool id (send_suback io (Subscribe.set_max_qos subscribe qos_level1)) s')
        λ _ _.
          retained-pool now retained id _
          ∙ on_client-pool id (send_suback io (Subscribe.set_max_qos subscribe qos_level1)) s'

  -- A job adds to the pool the jobs that it asks for, and nothing else, whatever goes wrong in it.
  pub run_job-spawned :
      (now : ℕ) (job : Job) (s : Server S I L)
      → (run_job io now job s).1.pool ≡ s.pool ++ spawned job s.topic_handler
  unfolding run_job handle_publish broadcast_publish publish_topics execute handle_unsubscribe
      unsubscribe_topics
  run_job-spawned now (handling_publish publish id) s = answering-pool publish.packet_id id _
  run_job-spawned now (handling_subscribe subscribe id) s =
      subscribe-pool now subscribe id s ∙ sym (append-nil s.pool)
  run_job-spawned now (handling_unsubscribe unsubscribe id) s =
      on_client-pool id (send_unsuback io unsubscribe.packet_id) _ ∙ sym (append-nil s.pool)
  run_job-spawned now (dispatching messages) s = (publish_dispatcher_loop-pool messages s).0
  run_job-spawned now (sending id publish) s = on_client-pool id _ s ∙ sym (append-nil s.pool)
