-- ===== src/Dispatcher.antt =====
-- dbosify/_internal/dispatcher.py: the workflow around one run of a workflow type.
pub mod ChainHops
pub mod TaskLoop
pub mod Schedule
