-- ===== src/Grid.antt =====
-- thumbnail-grid-slice.ts: `State` is the slice's state, `Reducers` its plain actions, `Requests`
-- the reducers of its asynchronous requests, `Thunks` the synchronous action creators.
pub mod State
pub mod Ids
pub mod Reducers
pub mod Requests
pub mod Thunks
pub mod Counters
pub mod Selection
pub mod Actions
pub mod Normalized
pub mod Release
pub mod Freed
pub mod Deletion
pub mod Loads
pub mod Selected
pub mod Tests
mod RequestTests
mod SelectedTests
