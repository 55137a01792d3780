-- ===== src/Fs.antt =====
-- lab5-TheCarton-main: the inode file system, from the layout of its image (Layout, Bitmap) and the
-- block access (State) over paths and directories (Path, Walk) to the calls of fs5600.c (Attr, File,
-- Tree).
pub mod Layout
pub mod Bitmap
pub mod State
pub mod Path
pub mod Walk
pub mod Attr
pub mod File
pub mod Tree
pub mod Reads
mod Tests
