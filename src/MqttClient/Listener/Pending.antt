-- ===== src/MqttClient/Listener/Pending.antt =====
-- mqtt_client/src/client/client_listener.rs: what becomes of the packet that waits for its answer.
use t1_tp.Packets.Publish.Decoding
use t1_tp.Packets.Connack.{Connack}
use t1_tp.Packets.Connack
use t1_tp.Packets.Suback.{Suback}
use t1_tp.Packets.Suback
use t1_tp.MqttClient.Listener.Answers.{Answers}
