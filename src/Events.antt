-- ===== src/Events.antt =====
-- callstack/events: the bus that carries events from the modem to the services.
pub mod Bus
