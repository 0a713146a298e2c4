-- ===== src/Iface.antt =====
-- The packet rings and the frame pool of src/core/iface/xdp_interface.c.
pub mod Window
pub mod Ring
pub mod Pool
mod Tests
