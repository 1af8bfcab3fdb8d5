-- ===== src/Receiver.antt =====
-- internal/collector/receiver.go: the live receiver. Its parts are the decision who may send what
-- (Access), the checks of its configuration (Config), the window of spans that it has seen (Seen), and the
-- spans that wait for their agent (Traces).
pub mod Config
pub mod Access
pub mod Seen
pub mod Traces
pub mod Accept
pub mod Runs
