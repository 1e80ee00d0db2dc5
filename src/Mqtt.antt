-- ===== src/Mqtt.antt =====
-- gateway/app/core/mqtt_client.py: the bridge from the broker to the store.
pub mod RateState
pub mod Topics
pub mod Limits
pub mod Quarantine
pub mod Bridge
pub mod Ingest
pub mod Receiving
