-- ===== src/Interpreter.antt =====
-- dbosify/_internal/interpreter.py, which runs one workflow: its signals, updates and activities.
pub mod Signals
pub mod Updates
pub mod Activities
pub mod Children
