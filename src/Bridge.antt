-- ===== src/Bridge.antt =====
-- lora_warp_pipe/scheduler_bridge.py: the scheduler's state, carried into the kernel's metadata.
pub mod IdMap
pub mod FirstSeen
pub mod Segments
pub mod Gwar
pub mod Write
pub mod Rows
pub mod Ticks
