-- ===== src/Punica.antt =====
-- lora_warp_pipe/punica_wrapper.py, with the two entry points of the extension that it calls.
pub mod Kernel
pub mod Bounds
pub mod Grid
pub mod Wrapper
pub mod Step
pub mod Install
