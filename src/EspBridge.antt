-- ===== src/EspBridge.antt =====
-- src/hil_controller/adapters/esp_usbip_bridge.py: the HTTP client of an ESP32 USB/IP bridge, the power
-- of a hub port behind it, and what it says of exhausted channels.
pub mod Http
pub mod Claims
pub mod Power
pub mod Quiet
pub mod Cycle
pub mod Evidence
pub mod Tests
