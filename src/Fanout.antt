-- ===== src/Fanout.antt =====
-- messaging/fanout.go: a pipeline that hands messages to sixteen workers.
pub mod Worker
pub mod Pipeline
