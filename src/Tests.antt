-- ===== src/Tests.antt =====
-- Runs of the model on small logs, queues and stores, and the theorems at these.
mod Contest
mod Services
mod Files
mod Party
mod Store
mod Submission
