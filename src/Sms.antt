-- ===== src/Sms.antt =====
-- SMS (callstack/sms/types.py, callstack/sms/store.py, callstack/sms/service.py): the messages, their
-- store and its database, and the service.
pub mod Types
pub mod Rows
pub mod Database
pub mod Store
pub mod Service
