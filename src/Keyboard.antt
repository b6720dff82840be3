-- ===== src/Keyboard.antt =====
-- lab_09: interrupts of the keyboard, handled by a tasklet and by a work queue.
pub mod Keys
pub mod Tasklet
pub mod Workqueue
pub mod Lifecycle
mod Tests
