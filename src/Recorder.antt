-- ===== src/Recorder.antt =====
-- service/recorder.go: recorded trades and the profit and loss over them.
pub mod Types
pub mod Days
pub mod History
pub mod Store
