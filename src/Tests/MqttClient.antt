-- ===== src/Tests/MqttClient.antt =====
-- Runs of the client library against a server that never answers, and over a stream that takes all.
use t1_tp.Common.{ℕ, ◌*◌, false, List, [], ◌∷◌, ◌++◌, Option, none, some}
use t1_tp.Packets.Error.{IoError}
use t1_tp.Packets.Header.{qos_level1}
use t1_tp.Packets.Filter
use t1_tp.Packets.Field
use t1_tp.Packets.Length
use t1_tp.Packets.Subscribe.{Subscribe}
use t1_tp.Packets.Subscribe
use t1_tp.MqttClient.{subscribe}
use t1_tp.MqttClient.Listener.{ClientListener}
use t1_tp.MqttClient.Listener.Answers.{Answers}
use t1_tp.MqttClient.Sender.{Checks, ClientSender}

abbrev asked : Subscribe
asked = record {
  packet_identifier = 7;
  topics = record { name = b'a' ∷ []; qos = qos_level1 } ∷ [];
}

abbrev listener : ClientListener
listener = record {
  pending_ack = some (subscribe asked);
  observed = [];
  stop = false;
  to_acknowledge = [];
}

abbrev write_all : List ℕ → List ℕ → Option IoError × List ℕ
write_all s bytes = (none, s ++ bytes)

-- A check every half a second, and no answer at any of them
abbrev silence : Checks
silence = record { clock = λ k. 500 * k; heard = λ k. false }

abbrev sender : ClientSender (List ℕ)
sender = record { stream = []; pending_ack = none; observed = []; failure_stop = false }

abbrev asked_bytes : List ℕ
asked_bytes = 130 ∷ 6 ∷ 0 ∷ 7 ∷ 0 ∷ 1 ∷ b'a' ∷ 1 ∷ []
