-- ===== src/Voice.antt =====
-- callstack/voice: the call state machine and the collector of DTMF digits.
pub mod State
pub mod Dtmf
pub mod Service
pub mod Ivr
