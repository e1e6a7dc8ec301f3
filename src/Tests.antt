-- ===== src/Tests.antt =====
-- Runs at concrete inputs of what is proved of the modules.
pub mod Pdu
pub mod Multipart
pub mod Reassembly
pub mod Protocol
pub mod Voice
pub mod Events
pub mod Utils
pub mod Reader
pub mod Urc
pub mod Network
pub mod Service
pub mod Ivr
pub mod Metrics
pub mod Modem
pub mod Privacy
pub mod Store
pub mod Sms
