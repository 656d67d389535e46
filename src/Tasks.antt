-- ===== src/Tasks.antt =====
-- What the plans are made of: the tool layer and the task library.
pub mod Tools
pub mod Library
