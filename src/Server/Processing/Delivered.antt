-- ===== src/Server/Processing/Delivered.antt =====
-- server/src/server/packet_processing.rs: what the jobs of a packet bring to the streams of the clients.
use t1_tp.Common.{
  ℕ, ◌≡◌, ◌≢◌, refl, ap, ◌∙◌, inl, inr, true, false, List, [], ◌∷◌, ◌++◌, some, arith,
  same_text_iff,
}
use t1_tp.Common.Map.{get, text_key}
use t1_tp.Packets.Error.{PacketResult}
use t1_tp.Packets.Stream.{be_bytes}
use t1_tp.Packets.Header.{qos_level1}
use t1_tp.Packets.Publish.{Publish, set_retain_flag}
use t1_tp.Packets.Publish
use t1_tp.Packets.Acks.{new_puback, encode_puback, verify_packet_id}
use t1_tp.Topics.Names.{Level, levels}
use t1_tp.Topics.Tree.{ClientId, SubscriptionData}
use t1_tp.Topics.Handler
use t1_tp.Topics.Held.{held}
use t1_tp.Topics.Delivery.{Among, Among-right, hidden, publish-delivers}
use t1_tp.Topics.Matching.{serves}
use t1_tp.Topics.Publishing.{Message}
use t1_tp.Server.Result.{of_io, ok}
use t1_tp.Server.Action.{then_do}
use t1_tp.Server.Client.{Client, NetworkConnection, StreamIo, send_packet, on_stream}
use t1_tp.Server.Manager.Acting.{client_do-acted}
use t1_tp.Server.Processing.{
  of_packet, Server, handling_publish, dispatching, sending, run_job, handle_publish, on_client,
  on_manager, send_puback, broadcast_publish, publish_topics, execute,
}
use t1_tp.Server.Processing.Jobs.{sends, run_job-spawned}

pub sends-Among :
    (m : Message) (messages : List Message)
    → Among m messages
    → Among (sending m.client_id m.packet) (sends messages)
sends-Among m [] h = absurd h
sends-Among m (x ∷ messages) (inl e) = inl (ap (λ (y : Message). sending y.client_id y.packet) e)
sends-Among m (x ∷ messages) (inr h) = inr (sends-Among m messages h)

module _ {S I L : Type 0} (io : StreamIo S) where
  -- When a publication is handled, a dispatcher comes into the pool which, whenever it runs, asks for
  -- the sending of the packet to each client that holds a subscription to a filter that is served
  -- for the name, unless the filter begins with a wildcard and the name with `$`: without the retain flag, at level 1 and at the level of the subscription at most, and with the
  -- identifier that its publisher gave it.
  pub publish-sends :
      (f : List Level) (p : Publish) (publisher c : ClientId) (d : SubscriptionData)
      (s : Server S I L) (now : ℕ)
      → held f s.topic_handler c ≡ some d
      → serves f (levels p.topic_name) ≡ true
      → hidden true f (levels p.topic_name) ≡ false
      → let sent =
          Publish.set_max_qos (set_retain_flag (Publish.set_max_qos p qos_level1) false) d.qos in
        (sent.packet_id ≡ p.packet_id)
        × (messages : List Message) × ((run_job io now (handling_publish p publisher) s).1.pool
            ≡ s.pool ++ (dispatching messages ∷ []))
        × ((later : ℕ) (s' : Server S I L)
            → Among (sending c sent) (run_job io later (dispatching messages) s').1.pool)
  unfolding Publish.set_max_qos Handler.publish
  publish-sends f p publisher c d s now h served open_root =
      let messages = (Handler.publish (Publish.set_max_qos p qos_level1) s.topic_handler).1 in
      (
        refl,
        messages,
        run_job-spawned io now (handling_publish p publisher) s,
        λ later s'. rw (run_job-spawned io later (dispatching messages) s') (
            Among-right _ s'.pool (sends messages) (
              sends-Among _ messages (
                publish-delivers _ c d f (levels p.topic_name) s.topic_handler true h served
                  open_root))),
      )

new_puback-ok : (n : ℕ) → n ≢ 0 → of_packet (new_puback n) ≡ ok (record { packet_id = n })
unfolding new_puback verify_packet_id
new_puback-ok n h = ground arith

module _ {S I : Type 0} (io : StreamIo S) where
  -- The client with what was written to its stream
  abbrev pub written : List ℕ → NetworkConnection S I → Client S I → Client S I
  written bytes conn client = record client {
    connection = some (record conn { stream = (io.write_all conn.stream bytes).1 });
  }

  send_packet-written :
      (bytes : List ℕ) (client : Client S I) (conn : NetworkConnection S I)
      → client.connection ≡ some conn
      → send_packet io (PacketResult.ok bytes) client
        ≡ (of_io (io.write_all conn.stream bytes).0, written bytes conn client)
  unfolding send_packet on_stream
  send_packet-written bytes client conn e = simp (e, send_packet, on_stream)

  send_puback-written :
      (n : ℕ) (client : Client S I) (conn : NetworkConnection S I)
      → client.connection ≡ some conn
      → n ≢ 0
      → (send_puback io n client).1 ≡ written (64 ∷ 2 ∷ be_bytes n) conn client
  unfolding send_puback encode_puback
  send_puback-written n client conn e h =
      ap (λ x. (then_do (λ puback. send_packet io (encode_puback puback)) (x, client)).1)
        (new_puback-ok n h)
      ∙ ap (λ x. x.1) (send_packet-written (64 ∷ 2 ∷ be_bytes n) client conn e)

module _ {S I L : Type 0} (io : StreamIo S) where
  -- When a packet with an identifier is handled, its acknowledgement with the same identifier is
  -- written to the stream of the client, and nothing else of the session changes.
  pub handle_publish-acknowledges :
      (p : Publish) (n : ℕ) (id : ClientId) (client : Client S I) (conn : NetworkConnection S I)
      (s : Server S I L)
      → p.packet_id ≡ some n
      → n ≢ 0
      → get id s.clients_manager.clients ≡ some client
      → client.connection ≡ some conn
      → get id (handle_publish io p id s).1.clients_manager.clients
        ≡ some (written io (64 ∷ 2 ∷ be_bytes n) conn client)
  unfolding handle_publish broadcast_publish publish_topics execute on_client on_manager
  handle_publish-acknowledges p n id client conn s identified h found connected =
      rw
        (
          identified,
          client_do-acted id (send_puback io n) s.clients_manager id,
          found,
          send_puback-written io n client conn connected h,
        )
        (ground (arith, same_text_iff id id))
