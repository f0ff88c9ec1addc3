-- ===== src/Usb.antt =====
-- src/usb.c: `CheckAdbDevices` and `CheckiOSDevices`. What the programs and usbmuxd answer is an
-- argument of each function.
pub mod Adb
pub mod Ios
pub mod Errors
mod Tests
