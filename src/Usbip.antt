-- ===== src/Usbip.antt =====
-- src/hil_controller/adapters/usbip_bridge.py: a USB device that a server lends to a client host.
pub mod Parse
pub mod Bridge
pub mod Keeps
pub mod Spared
pub mod Unbound
pub mod Retried
pub mod Appeared
pub mod Tests
