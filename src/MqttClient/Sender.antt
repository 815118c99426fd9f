-- ===== src/MqttClient/Sender.antt =====
-- mqtt_client/src/client/client_sender.rs: the operations that send packets to the server and wait for
-- their answers. Times are numbers of milliseconds. What happens while the sender sleeps is given: the
-- time of each check, and whether the listener has settled what waits by then.
pub mod Waiting
pub mod Exchanged
use t1_tp.Common.{
  ℕ, zero, suc, ◌+◌, ltb, Bool, true, false, List, [], ◌∷◌, ◌++◌, Option, none, some, if◌then◌else◌,
}
use t1_tp.Packets.Error.{IoError, PacketResult}
use t1_tp.Packets.Header.{qos_level1, same_qos}
use t1_tp.Packets.Publish.{Publish, set_dup}
use t1_tp.Packets.Publish.Encoding
use t1_tp.Packets.Connect.{Connect}
use t1_tp.Packets.Connect.Encoding as ConnectEncoding
use t1_tp.Packets.Acks.{Puback, encode_puback}
use t1_tp.Packets.Subscribe.{Subscribe}
use t1_tp.Packets.Subscribe
use t1_tp.Packets.Unsubscribe.{Unsubscribe}
use t1_tp.Packets.Unsubscribe
use t1_tp.Packets.Empty.{encode_ping_req, encode_disconnect}
use t1_tp.MqttClient.{
  ClientError, ClientResult, ok, err, panic, of_packet, of_io, not_connected, no_suback, no_puback,
  no_pingresp, no_unsuback, PendingAck, subscribe, unsubscribe, ping_req, publish, connect, Message,
  connected, subscribed, unsubscribed, published, internal_error,
}

-- `RESEND_TIMEOUT` and `ACK_CHECK`, in milliseconds, and `MAX_RETRIES`
abbrev pub resend_timeout : ℕ
resend_timeout = 5000

abbrev pub ack_check : ℕ
ack_check = 500

abbrev pub max_retries : ℕ
max_retries = 3

-- `ClientSender`, with the flag that `send_connect` sets
pub record ClientSender (W : Type 0) : Type 0 where
  pub stream : W
  pub pending_ack : Option PendingAck
  pub observed : List Message
  pub failure_stop : Bool

-- `ClientSender::new`
unfoldable pub new : {W : Type 0} → W → ClientSender W
new stream = record { stream = stream; pending_ack = none; observed = []; failure_stop = false }

-- `send_error`
unfoldable pub send_error : {W : Type 0} → ClientError → ClientSender W → ClientSender W
send_error error s = record s { observed = s.observed ++ (internal_error error ∷ []) }

-- What the sender finds at its checks; the first one is the time at which it starts to wait.
pub record Checks : Type 0 where
  pub clock : ℕ → ℕ
  pub heard : ℕ → Bool

module _ {W : Type 0} (write_all : W → List ℕ → Option IoError × W) (checks : Checks) where
  -- The loop of `wait_for_ack`, on fuel for the checks.
  unfoldable pub wait_loop : ℕ → List ℕ → ℕ → ℕ → ℕ → W → Option (ClientResult Bool × W)
  wait_loop zero resend_bytes check retries last stream = none
  wait_loop (suc fuel) resend_bytes check retries last stream = elim (ltb retries max_retries) [
    | false ↦ some (ok false, stream)
    | true ↦ elim (checks.heard check) [
      | true ↦ some (ok true, stream)
      | false ↦ elim (ltb (last + resend_timeout) (checks.clock check)) [
        | false ↦ wait_loop fuel resend_bytes (suc check) retries last stream
        | true ↦
            let (e, stream') = write_all stream resend_bytes in
            elim e [
              | some error ↦ some (err (of_io error), stream')
              | none ↦
                  wait_loop fuel resend_bytes (suc check) (suc retries) (checks.clock check) stream'
            ]
      ]
    ]
  ]

  -- `wait_for_ack`: 44 checks are enough. Without an error nothing waits behind it.
  unfoldable pub wait_for_ack : List ℕ → ClientSender W → ClientResult Bool × ClientSender W
  wait_for_ack resend_bytes s = elim (wait_loop 44 resend_bytes 1 0 (checks.clock 0) s.stream) [
    | none ↦ (panic, s)
    | some (result, stream) ↦ (
      result,
      elim result [
        | ok answered ↦ record s { stream = stream; pending_ack = none }
        | err e ↦ record s { stream = stream }
        | panic ↦ record s { stream = stream }
      ],
    )
  ]

  -- `lock.write_all(&bytes)?`
  unfoldable pub write : List ℕ → ClientSender W → ClientResult (Unit {0}) × ClientSender W
  write bytes s =
      let (e, stream) = write_all s.stream bytes in
      (elim e [ none ↦ ok tt | some error ↦ err (of_io error) ], record s { stream = stream })

  -- What `_connect`, `_subscribe`, `_pingreq` and `_unsubscribe` do with the bytes of their packet.
  unfoldable pub exchange :
      PendingAck → ClientError → List ℕ → ClientSender W → ClientResult (Unit {0}) × ClientSender W
  exchange pending failure bytes s =
      let (written, s') = write bytes (record s { pending_ack = some pending }) in
      elim written [
        | err e ↦ (err e, s')
        | panic ↦ (panic, s')
        | ok _ ↦
            (let (answer, s'') = wait_for_ack bytes s' in
              elim answer [
                | err e ↦ (err e, s'')
                | panic ↦ (panic, s'')
                | ok answered ↦ (if answered then ok tt else err failure, s'')
              ])
      ]

  -- `?` on the bytes of a packet
  unfoldable pub with_bytes :
      PacketResult (List ℕ)
      → (List ℕ → ClientSender W → ClientResult (Unit {0}) × ClientSender W)
      → ClientSender W
      → ClientResult (Unit {0}) × ClientSender W
  with_bytes (PacketResult.ok bytes) act s = act bytes s
  with_bytes (PacketResult.err kind) act s = (err (of_packet kind), s)
  with_bytes PacketResult.panic act s = (panic, s)

  unfoldable pub do_connect : Connect → ClientSender W → ClientResult (Unit {0}) × ClientSender W
  do_connect c = with_bytes (ConnectEncoding.encode c) (exchange (connect c) not_connected)

  unfoldable pub do_subscribe :
      Subscribe → ClientSender W → ClientResult (Unit {0}) × ClientSender W
  do_subscribe p = with_bytes (Subscribe.encode p) (exchange (subscribe p) no_suback)

  unfoldable pub do_unsubscribe :
      Unsubscribe → ClientSender W → ClientResult (Unit {0}) × ClientSender W
  do_unsubscribe p = with_bytes (Unsubscribe.encode p) (exchange (unsubscribe p) no_unsuback)

  unfoldable pub do_pingreq : ClientSender W → ClientResult (Unit {0}) × ClientSender W
  do_pingreq = with_bytes encode_ping_req (exchange ping_req no_pingresp)

  -- The end of `_publish`, behind the first writing of the packet
  unfoldable pub finish_publish :
      Publish → List ℕ → ClientSender W → ClientResult (Unit {0}) × ClientSender W
  finish_publish p resend_bytes s =
      if same_qos p.qos qos_level1
      then (let (answer, s') = wait_for_ack resend_bytes s in
          elim answer [
            | err e ↦ (err e, s')
            | panic ↦ (panic, s')
            | ok answered ↦ (if answered then ok tt else err no_puback, s')
          ])
      else (ok tt, record s { observed = s.observed ++ (published (ok none) ∷ []) })

  -- `_publish`
  unfoldable pub do_publish : Publish → ClientSender W → ClientResult (Unit {0}) × ClientSender W
  do_publish p = with_bytes (Encoding.encode p) λ bytes s.
      (let waiting : ClientSender W =
          if same_qos p.qos qos_level1 then record s { pending_ack = some (publish p) } else s in
        let (written, s') = write bytes waiting in
        elim written [
          | err e ↦ (err e, s')
          | panic ↦ (panic, s')
          | ok _ ↦ with_bytes (Encoding.encode (set_dup p true)) (finish_publish p) s'
        ])

  unfoldable pub do_puback : Puback → ClientSender W → ClientResult (Unit {0}) × ClientSender W
  do_puback p = with_bytes (encode_puback p) write

  unfoldable pub do_disconnect : ClientSender W → ClientResult (Unit {0}) × ClientSender W
  do_disconnect = with_bytes encode_disconnect write

  -- The observer is told of an error, and only of that; a panic stays one.
  unfoldable pub report :
      (ClientError → Message)
      → ClientResult (Unit {0}) × ClientSender W
      → ClientResult (Unit {0}) × ClientSender W
  report message (ok _, s) = (ok tt, s)
  report message (err e, s) = (ok tt, record s { observed = s.observed ++ (message e ∷ []) })
  report message (panic, s) = (panic, s)

  unfoldable pub send_subscribe :
      Subscribe → ClientSender W → ClientResult (Unit {0}) × ClientSender W
  send_subscribe p s = report (λ e. subscribed (err e)) (do_subscribe p s)

  unfoldable pub send_unsubscribe :
      Unsubscribe → ClientSender W → ClientResult (Unit {0}) × ClientSender W
  send_unsubscribe p s = report (λ e. unsubscribed (err e)) (do_unsubscribe p s)

  unfoldable pub send_publish : Publish → ClientSender W → ClientResult (Unit {0}) × ClientSender W
  send_publish p s = report (λ e. published (err e)) (do_publish p s)

  unfoldable pub send_pingreq : ClientSender W → ClientResult (Unit {0}) × ClientSender W
  send_pingreq s = report internal_error (do_pingreq s)

  unfoldable pub send_disconnect : ClientSender W → ClientResult (Unit {0}) × ClientSender W
  send_disconnect s = report internal_error (do_disconnect s)

  unfoldable pub send_puback : Puback → ClientSender W → ClientResult (Unit {0}) × ClientSender W
  send_puback p s = report internal_error (do_puback p s)

  -- `send_connect`: its failure stops the client.
  unfoldable pub send_connect : Connect → ClientSender W → ClientResult (Unit {0}) × ClientSender W
  send_connect c s =
      let (result, s') = do_connect c s in
      elim result [
        | ok _ ↦ (ok tt, s')
        | panic ↦ (panic, s')
        | err e ↦ (
          ok tt,
          record s' { observed = s'.observed ++ (connected (err e) ∷ []); failure_stop = true },
        )
      ]
