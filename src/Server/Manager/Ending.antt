-- ===== src/Server/Manager/Ending.antt =====
-- server/src/clients_manager/mod.rs: the sessions behind `disconnect`.
use t1_tp.Common.{
  ℕ, ◌≡◌, refl, ap, ◌∙◌, Bool, ◌&&◌, ◌||◌, not, true, false, contains, inl, inr, same_text,
  if◌then◌else◌, Option, none, some, arith, Bool-cases, Option-cases,
}
use t1_tp.Common.Map.{get, text_key}
use t1_tp.Topics.Tree.{ClientId}
use t1_tp.Server.Result.{ServerErrorKind, from_io_error, is_ok, ok, err}
use t1_tp.Server.Client
use t1_tp.Server.Client.Will.{will_at}
use t1_tp.Packets.Error.{IoError}
use t1_tp.Packets.Connect.{LastWill, take_last_will}
use t1_tp.Server.Client.{Client, StreamIo, NetworkConnection, on_stream, publish_of_will}
use t1_tp.Server.Manager.{ServerErrorKind, ClientsManager, is_taken_over, disconnect}
use t1_tp.Server.Manager.Acting.{left_over, disconnect-left_over}

-- The session without a connection and without its last will
abbrev pub parted : {S I : Type 0} → Client S I → Client S I
parted client = record client {
  connection = none;
  connect = record client.connect { last_will = none };
}

-- Whether there is a last will whose topic no packet can be published under.
abbrev pub has_bad_will : {S I : Type 0} → Client S I → Bool
has_bad_will client = elim client.connect.last_will [
  | none ↦ false
  | some will ↦ contains b'+' will.topic.name || contains b'#' will.topic.name
]

module _ {S I : Type 0} (io : StreamIo S) (same_id : I → I → Bool)
    (connection : NetworkConnection S I) (gracefully : Bool) where
  -- What becomes of a session whose connection is closed: when that fails it stays without a connection;
  -- else it goes if it is clean and no bad will is in the way, and stays without its will if not.
  abbrev pub closed_behind : Client S I → Option IoError → Option (Client S I)
  closed_behind client (some e) = some (record client { connection = none })
  closed_behind client none =
      if client.connect.clean_session && (gracefully || not (has_bad_will client))
      then none
      else some (parted client)

  -- What becomes of the session that a connection leaves: it stays as it is when it has a connection with
  -- another id, and is closed when it has this one or none.
  abbrev pub left_behind : Option (Client S I) → Option (Client S I)
  left_behind none = none
  left_behind (some client) = elim client.connection [
    | none ↦ closed_behind client none
    | some old ↦ elim (same_id connection.id old.id) [
      | true ↦ closed_behind client (io.close old.stream).0
      | false ↦ some client
    ]
  ]

  module _ (random : ℕ) where
    publish_of_will-fails :
        (will : LastWill)
        → is_ok (publish_of_will will random)
          ≡ not (contains b'+' will.topic.name || contains b'#' will.topic.name)
    publish_of_will-fails will =
        let e = will_at will.topic.qos will.retain_flag will.topic.name will.topic_message random in
        ground arith

    -- The session when the closing has succeeded
    disconnect_done :
        (client : Client S I)
        → (on_stream io io.close client).0 ≡ ok tt
        → (let (result, client') = Client.disconnect io gracefully random client in
            if is_ok result && client'.connect.clean_session then none else some client')
          ≡ closed_behind client none
    unfolding Client.disconnect take_last_will
    disconnect_done client closed = elim (Option-cases client.connect.last_will) [
      | inl nothing ↦ ground arith
      | inr (will, present) ↦ ground (arith, publish_of_will-fails will)
    ]

    disconnect_failed :
        (client : Client S I) (kind : ServerErrorKind)
        → (on_stream io io.close client).0 ≡ err kind
        → Client.disconnect io gracefully random client
          ≡ (err kind, record client { connection = none })
    unfolding Client.disconnect take_last_will
    disconnect_failed client kind failed = ground arith

    left_over-left_behind :
        (client : Client S I)
        → left_over io same_id connection gracefully random (some client)
          ≡ left_behind (some client)
    unfolding is_taken_over on_stream
    left_over-left_behind client = elim (Option-cases client.connection) [
      | inl alone ↦ let done = disconnect_done client (ground arith) in ground arith
      | inr (old, present) ↦ elim (Bool-cases (same_id connection.id old.id)) [
        | inr other ↦ ground arith
        | inl own ↦ elim (Option-cases (io.close old.stream).0) [
          | inl closed ↦ let done = disconnect_done client (ground arith) in ground arith
          | inr (e, failed) ↦
              let failing = disconnect_failed client (from_io_error e) (ground arith) in
              ground arith
        ]
      ]
    ]

    each_left_behind :
        (o : Option (Client S I))
        → left_over io same_id connection gracefully random o ≡ left_behind o
    each_left_behind none = refl
    each_left_behind (some client) = left_over-left_behind client

module _ {S I L : Type 0} (io : StreamIo S) (same_id : I → I → Bool) (id : ClientId)
    (connection : NetworkConnection S I) (gracefully : Bool) (random : ℕ) where
  -- Behind `disconnect`, whatever its answer, the other sessions are what they were. The session under the
  -- id is what it was when it has a connection with another id than the one that leaves. Otherwise it has
  -- no connection any more, and when closing it did not fail it has no last will either, and is gone if
  -- it is clean; a will whose topic has wildcards keeps a clean session that did not leave gracefully.
  pub disconnect-left_behind :
      (m : ClientsManager S I L) (j : ClientId)
      → get j (disconnect io same_id id connection gracefully random m).1.clients ≡ (
          if same_text id j
          then left_behind io same_id connection gracefully (get id m.clients)
          else get j m.clients)
  disconnect-left_behind m j =
      disconnect-left_over io same_id id connection gracefully random m j
      ∙ ap (λ o. if same_text id j then o else get j m.clients)
          (each_left_behind io same_id connection gracefully random (get id m.clients))
