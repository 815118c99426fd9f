-- ===== src/MqttClient/Listener/Handling.antt =====
-- mqtt_client/src/client/client_listener.rs: what each handler makes of the packet that
-- waits.
use t1_tp.Common.{
  ℕ, ◌==◌, ◌≡◌, refl, sym, ap, ◌∙◌, ==_iff, Bool-cases, inl, inr, true, List, Option, none, some,
  arith, Option-cases, if◌then◌else◌,
}
use t1_tp.Packets.Error.{PacketResult}
use t1_tp.Packets.Publish.{Publish}
use t1_tp.Packets.Connect.{Connect}
use t1_tp.Packets.Connack.{Connack}
use t1_tp.Packets.Acks.{Puback, Unsuback, read_puback, read_unsuback}
use t1_tp.Packets.Acks
use t1_tp.Packets.Suback.{Suback}
use t1_tp.Packets.Suback
use t1_tp.MqttClient.{
  Unsubscribe, Subscribe, ok, err, of_packet, publish_without_id, PendingAck, subscribe,
  unsubscribe, ping_req, publish, connect, published,
}
use t1_tp.MqttClient.Listener.{
  ClientListener, Listening, update, settle, reading, on_publish, on_suback, on_unsuback, on_puback,
  on_pingresp, on_connack, expects_connack, is_user_error,
}
use t1_tp.MqttClient.Listener.Answers.{IsKept}

expects_connack-connect :
    (o : Option PendingAck) → expects_connack o ≡ true → (c : Connect) × (o ≡ some (connect c))
unfolding expects_connack
expects_connack-connect none h = cc
expects_connack-connect (some (connect c)) h = (c, refl)
expects_connack-connect (some (subscribe s)) h = cc
expects_connack-connect (some (unsubscribe u)) h = cc
expects_connack-connect (some ping_req) h = cc
expects_connack-connect (some (publish p)) h = cc

module _ (Answered : PendingAck → Type 0) where
  pub reading-IsKept :
      {A : Type 0} (r : PacketResult (A × List ℕ)) (handle : A → Listening (Unit {0}))
      (l : ClientListener)
      → ((a : A) (rest : List ℕ) → r ≡ PacketResult.ok (a, rest) → IsKept Answered l (handle a l).1)
      → IsKept Answered l (reading r handle l).1
  unfolding reading
  reading-IsKept (PacketResult.ok (a, rest)) handle l h = h a rest refl
  reading-IsKept (PacketResult.err kind) handle l h = inl refl
  reading-IsKept PacketResult.panic handle l h = inl refl

  pub publish-IsKept : (p : Publish) (l : ClientListener) → IsKept Answered l (on_publish p l).1
  unfolding on_publish update
  publish-IsKept p l = inl (ground arith)

  pub suback-IsKept :
      (p : Suback) (l : ClientListener)
      → ((s : Subscribe) → s.packet_identifier ≡ p.subscribe_packet_id → Answered (subscribe s))
      → IsKept Answered l (on_suback p l).1
  unfolding on_suback settle update Suback.set_topics
  suback-IsKept p l answers = elim (Option-cases l.pending_ack) [
    | inl e ↦ inl (rw (e, on_suback) e)
    | inr (subscribe s, e) ↦ elim (Bool-cases (s.packet_identifier == p.subscribe_packet_id)) [
      | inl same ↦ inr (
        subscribe s,
        e,
        answers s ((==_iff s.packet_identifier p.subscribe_packet_id).0 same),
        rw (e, on_suback, same) refl,
        (
          Suback.set_topics p s.topics,
          sym ((==_iff s.packet_identifier p.subscribe_packet_id).0 same),
          refl,
          rw (e, on_suback, same) refl,
        ),
      )
      | inr other ↦ inl (rw (e, on_suback, other) e)
    ]
    | inr (_, e) ↦ inl (rw (e, on_suback) e)
  ]

  pub unsuback-IsKept :
      (p : Unsuback) (l : ClientListener)
      → ((u : Unsubscribe) → u.packet_id ≡ p.packet_id → Answered (unsubscribe u))
      → IsKept Answered l (on_unsuback p l).1
  unfolding on_unsuback settle update Acks.set_topics
  unsuback-IsKept p l answers = elim (Option-cases l.pending_ack) [
    | inl e ↦ inl (rw (e, on_unsuback) e)
    | inr (unsubscribe u, e) ↦ elim (Bool-cases (u.packet_id == p.packet_id)) [
      | inl same ↦ inr (
        unsubscribe u,
        e,
        answers u ((==_iff u.packet_id p.packet_id).0 same),
        rw (e, on_unsuback, same) refl,
        (
          Acks.set_topics p u.topic_filters,
          sym ((==_iff u.packet_id p.packet_id).0 same),
          refl,
          rw (e, on_unsuback, same) refl,
        ),
      )
      | inr other ↦ inl (rw (e, on_unsuback, other) e)
    ]
    | inr (_, e) ↦ inl (rw (e, on_unsuback) e)
  ]

  puback_unnamed :
      (p : Puback) (l : ClientListener) (q : Publish)
      → l.pending_ack ≡ some (publish q)
      → q.packet_id ≡ none
      → on_puback p l ≡ (err publish_without_id, l)
  unfolding on_puback
  puback_unnamed p l q e n = simp (e, on_puback, n)

  puback_named :
      (p : Puback) (l : ClientListener) (q : Publish) (id : ℕ)
      → l.pending_ack ≡ some (publish q)
      → q.packet_id ≡ some id
      → on_puback p l
        ≡ (if id == p.packet_id then (ok tt, settle (published (ok (some p))) l) else (ok tt, l))
  unfolding on_puback
  puback_named p l q id e n = simp (e, on_puback, n)

  pub puback-IsKept :
      (p : Puback) (l : ClientListener)
      → ((q : Publish) → q.packet_id ≡ some p.packet_id → Answered (publish q))
      → IsKept Answered l (on_puback p l).1
  unfolding on_puback settle update
  puback-IsKept p l answers = elim (Option-cases l.pending_ack) [
    | inl e ↦ inl (rw (e, on_puback) e)
    | inr (publish q, e) ↦ elim (Option-cases q.packet_id) [
      | inl n ↦ inl (rw (puback_unnamed p l q e n) refl)
      | inr (id, n) ↦ elim (Bool-cases (id == p.packet_id)) [
        | inl same ↦ inr (
          publish q,
          e,
          answers q (n ∙ ap (λ (k : ℕ). some k) ((==_iff id p.packet_id).0 same)),
          rw (puback_named p l q id e n, same) refl,
          (
            p,
            n ∙ ap (λ (k : ℕ). some k) ((==_iff id p.packet_id).0 same),
            rw (puback_named p l q id e n, same) refl,
          ),
        )
        | inr other ↦ inl (rw (puback_named p l q id e n, other) refl)
      ]
    ]
    | inr (_, e) ↦ inl (rw (e, on_puback) e)
  ]

  pub pingresp-IsKept :
      (u : Unit {0}) (l : ClientListener)
      → Answered ping_req
      → IsKept Answered l (on_pingresp u l).1
  unfolding on_pingresp
  pingresp-IsKept u l answers = elim (Option-cases l.pending_ack) [
    | inl e ↦ inl (rw (e, on_pingresp) e)
    | inr (ping_req, e) ↦
        inr (ping_req, e, answers, rw (e, on_pingresp) refl, rw (e, on_pingresp) refl)
    | inr (_, e) ↦ inl (rw (e, on_pingresp) e)
  ]

  pub connack-IsKept :
      (stream : List ℕ) (r : PacketResult (Connack × List ℕ)) (l : ClientListener)
      → ((c : Connect) → Answered (connect c))
      → IsKept Answered l (on_connack stream r l).1
  unfolding on_connack settle update
  connack-IsKept stream (PacketResult.ok (packet, rest)) l answers =
      elim (Bool-cases (expects_connack l.pending_ack)) [
        | inl expected ↦
            let (c, e) = expects_connack-connect l.pending_ack expected in
            inr (
              connect c,
              e,
              answers c,
              rw (expected, on_connack) refl,
              (ok packet, rw (expected, on_connack) refl),
            )
        | inr other ↦ inl (rw (other, on_connack) refl)
      ]
  connack-IsKept stream (PacketResult.err kind) l answers = elim (Bool-cases (is_user_error kind)) [
    | inl user ↦ elim (Bool-cases (expects_connack l.pending_ack)) [
      | inl expected ↦
          let (c, e) = expects_connack-connect l.pending_ack expected in
          inr (
            connect c,
            e,
            answers c,
            rw (user, expected, on_connack) refl,
            (err (of_packet kind), rw (user, expected, on_connack) refl),
          )
      | inr other ↦ inl (rw (user, other, on_connack) refl)
    ]
    | inr internal ↦ inl (rw (internal, on_connack) refl)
  ]
  connack-IsKept stream PacketResult.panic l answers = inl refl
