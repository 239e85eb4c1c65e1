-- ===== src/Mqtt.antt =====
-- The MQTT packets of broker/mqtt.c and broker/mqtt.h.
pub mod Kind
pub mod Message
pub mod Command
pub mod Parser
pub mod Serialiser
mod Tests
