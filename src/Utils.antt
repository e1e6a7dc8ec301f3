-- ===== src/Utils.antt =====
-- callstack/utils: the retry of flaky calls.
pub mod Retry
pub mod Signal
