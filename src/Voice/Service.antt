-- ===== src/Voice/Service.antt =====
-- callstack/voice/service.py: `CallService`. An operation runs on the service's state, and returns or
-- raises. Where it waits, for the executor, the audio pipeline or the lock, the rest of the program
-- may run: each of these calls is a parameter that takes the state to any other. The call state
-- machine has no listeners here, so that a transition does not wait. Sessions are numbered in the
-- order of their creation; `ended` has those whose event is set.
pub mod Action
pub mod Audio
pub mod Calls
pub mod Idle
pub mod Dialed
