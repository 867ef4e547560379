-- ===== src/Workspace.antt =====
-- workspace/workspace.go: the in-memory workspace store. A file is its content; `path_clean` stands
-- for path.Clean. A checkpoint's ID is the number that its name "checkpoint-%d" holds.
mod Files
mod Store
pub mod Patches
pub mod Previews
pub mod Diffs
pub mod Restores
pub mod Numbering
pub mod Tests
pub use Files.*
pub use Store.*
