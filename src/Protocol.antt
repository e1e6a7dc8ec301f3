-- ===== src/Protocol.antt =====
-- callstack/protocol: the classification of modem lines, the command executor, the parser of
-- responses, the dispatcher of unsolicited result codes, and the builders of commands.
pub mod Lines
pub mod Executor
pub mod Commands
pub mod Reader
pub mod Parser
pub mod Urc
pub mod Redaction
