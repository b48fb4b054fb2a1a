-- ===== src/Usb.antt =====
-- The bulk driver of usb/usb-skeleton.c. `Dev` has the state of `struct usb_skel`, the completion
-- callbacks and the draw-down, the other modules the file operations and the life cycle.
pub mod Dev
pub mod Read
pub mod Write
pub mod Control
pub mod Probe
pub mod Invariant
pub mod Rounds
pub mod Draining
pub mod Stream
pub mod Flow
pub mod Reports
pub mod Blocking
pub mod Session
mod Tests
