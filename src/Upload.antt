-- ===== src/Upload.antt =====
-- upload-slice.ts: the upload dialog.
pub mod State
pub mod Reducers
pub mod Thunks
pub mod Editable
pub mod Actions
pub mod Counters
pub mod Tracked
pub mod Finish
mod Tests
