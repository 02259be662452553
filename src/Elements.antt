-- ===== src/Elements.antt =====
-- The page elements: what they keep besides the store, what they take from it, and the actions that
-- their events dispatch. An element takes its properties anew from the store when the store changes.
pub mod Uploader
pub mod Groups
pub mod ThumbnailGrid
pub mod MetadataForm
pub mod Container
pub mod Section
pub mod NavBar
pub mod SearchBox
pub mod Thumbnail
mod UploadTests
mod FormTests
mod GridTests
mod BarTests
mod SectionTests
mod SearchTests
mod ThumbnailTests
