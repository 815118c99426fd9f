-- ===== src/MqttClient/Sender/Exchanged.antt =====
-- mqtt_client/src/client/client_sender.rs: what waits, and what the caller hears, behind an exchange with
-- the server.
use t1_tp.Common.{true, ℕ, ◌≡◌, ◌⊎◌, List, Option, none, some}
use t1_tp.Packets.Error.{IoError}
use t1_tp.Packets.Subscribe.{Subscribe}
use t1_tp.Packets.Subscribe
use t1_tp.MqttClient.{ClientError, ClientResult, ok, err, of_io, PendingAck}
use t1_tp.MqttClient.Sender.{max_retries, Checks, ClientSender}
use t1_tp.MqttClient.Sender.Waiting.{sent_again}

module _ {W : Type 0} (write_all : W → List ℕ → Option IoError × W) (checks : Checks) where
  -- How an exchange ends: with an answer that was heard, or without one behind three more sendings, and
  -- then nothing waits; an error of the stream leaves the
  -- packet waiting.
  abbrev pub IsSettled :
      PendingAck → ClientError → List ℕ → W → ClientResult (Unit {0}) × ClientSender W → Type 0
  IsSettled pending failure bytes before (result, s') =
      ((result ≡ ok tt) × (s'.pending_ack ≡ none) × (k : ℕ) × (checks.heard k ≡ true))
      ⊎ (((result ≡ err failure)
            × (s'.pending_ack ≡ none)
            × (s'.stream
                ≡ sent_again write_all checks bytes max_retries (write_all before bytes).1))
          ⊎ ((e : IoError) × (result ≡ err (of_io e)) × (s'.pending_ack ≡ some pending)))
