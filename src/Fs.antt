-- ===== src/Fs.antt =====
-- internal/fs: the local file system. Every operation resolves its paths by the guard, checks
-- them against the limits and the state of the disk, and only then changes the disk.
pub mod Limits
pub mod Opening
pub mod Reading
pub mod Writing
pub mod Moving
