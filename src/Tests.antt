-- ===== src/Tests.antt =====
-- Runs of the modelled code on concrete packets, filters and sessions.
pub mod Topics
pub mod Packets
pub mod Server
pub mod Manager
pub mod SimpleLogin
pub mod Config
pub mod Processing
pub mod MqttClient
