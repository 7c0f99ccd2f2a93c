-- ===== src/Fs/Vfs.antt =====
-- kernel/fs/vfs.c: the tree of files in memory.
pub mod File
pub mod Tree
pub mod Path
pub mod Perm
