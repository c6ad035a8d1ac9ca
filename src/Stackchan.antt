-- ===== src/Stackchan.antt =====
-- The StackChan demonstration, demo/stackchan/stackchan_main.c: its servos, its display,
-- its loudspeaker and its task.
pub mod Servo
pub mod Display
pub mod Int
pub mod Bus
pub mod Screen
pub mod Speaker
pub mod Task
pub mod Command
