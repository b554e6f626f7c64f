-- ===== src/Rtc.antt =====
-- firmware/src/rtc.c: an S-3511A real-time clock emulated on the MCU's own.
pub mod State
pub mod Hour
pub mod Alarm
pub mod Status
pub mod Calendar
pub mod Command
pub mod Tests
