-- ===== src/MqttClient/Sender/Waiting.antt =====
-- mqtt_client/src/client/client_sender.rs: how long `wait_for_ack` waits, and what it writes meanwhile.
use t1_tp.Common.{◌⊎◌, ℕ, zero, suc, ◌≡◌, ◌⊎◌, Bool, List, Option, some}
use t1_tp.Packets.Error.{IoError}
use t1_tp.MqttClient.{ClientResult, ok, err, of_io}
use t1_tp.MqttClient.Sender.{Checks}

module _ {W : Type 0} (write_all : W → List ℕ → Option IoError × W) (checks : Checks)
    (bytes : List ℕ) where
  -- An end of the loop: an answer, or the error of a writing
  abbrev IsAnswer : Option (ClientResult Bool × W) → Type 0
  IsAnswer o =
      ((answered : Bool) × (stream' : W) × (o ≡ some (ok answered, stream')))
      ⊎ ((e : IoError) × (stream' : W) × (o ≡ some (err (of_io e), stream')))

  -- The stream behind some sendings of the bytes
  abbrev pub sent_again : ℕ → W → W
  sent_again zero stream = stream
  sent_again (suc n) stream = sent_again n (write_all stream bytes).1
