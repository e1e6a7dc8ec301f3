-- ===== src/Pdu.antt =====
-- callstack/sms/pdu.py, one child for each group of functions.
pub mod Alphabet
pub mod Pack
pub mod Gsm7
pub mod Udh
pub mod Phone
pub mod Hex
pub mod Submit
pub mod Segments
pub mod UserData
