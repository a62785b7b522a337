-- ===== src/Extension.antt =====
-- `WarpPipeExtension` of csrc/pybind/warp_pipe_bindings.cpp: the adapter store, the staging pool of
-- the prefetch engine, and the segment table that the kernels read.
pub mod Store
pub mod Cuda
pub mod Staging
pub mod Extension
pub mod Table
pub mod Pool
pub mod Pending
pub mod Prefetched
pub mod Kept
pub mod Ready
pub mod Rows
pub mod Build
pub mod Live
pub mod Batch
pub mod BridgeMemory
pub mod ReadBack
pub mod Slots
pub mod Unique
