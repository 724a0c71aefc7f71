-- ===== src/Driver.antt =====
-- hw14-driver/mouse_driv.c, a character device over a ring buffer, one module for each part.
pub mod Kernel
pub mod Ring
pub mod Events
pub mod Sysfs
pub mod Lifecycle
pub mod Session
mod Tests
