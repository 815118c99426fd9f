-- ===== src/Packets.antt =====
-- common/packets: the control packets of MQTT 3.1.1, their encoding and their decoding.
pub mod Error
pub mod Stream
pub mod Header
pub mod Length
pub mod Field
pub mod Filter
pub mod Publish
pub mod Connack
pub mod Acks
pub mod Empty
pub mod Suback
pub mod Subscribe
pub mod Unsubscribe
pub mod Connect
