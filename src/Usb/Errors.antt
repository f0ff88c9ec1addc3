-- ===== src/Usb/Errors.antt =====
-- `AdbErrorPrint` and `iOSErrorPrint` of src/usb.c.
use droidcam_linux_client.Prelude.{ℕ, ◌+◌, ◌≡◌, true, false, if◌then◌else◌}
use droidcam_linux_client.Prelude.Int.{ℤ, pos, ltb_ℤ, leb_ℤ, eq_ℤ}
use droidcam_linux_client.Usb.Adb.{
  Adb, no_error, error_no_devices, error_loading_devices, error_adding_forward,
  error_device_offline, error_device_notauth, check_adb_devices, Decides, Silent,
}
use droidcam_linux_client.Usb.Ios.{Usbmuxd, check_ios_devices}

-- The messages, one constructor for each text; `unexpected` is only printed for the developer.
pub data UsbMessage : Type 0 where
  forward_failed offline unauthorized no_adb no_devices : UsbMessage
  no_usbmuxd no_ios_devices no_ios_connection unexpected : UsbMessage

unfoldable pub adb_error_print : ℤ → UsbMessage
adb_error_print rc =
    if eq_ℤ rc error_adding_forward
    then forward_failed
    else if eq_ℤ rc error_device_offline
    then offline
    else if eq_ℤ rc error_device_notauth
    then unauthorized
    else if eq_ℤ rc error_loading_devices
    then no_adb
    else no_devices

unfoldable pub ios_error_print : ℤ → UsbMessage
ios_error_print rc =
    if eq_ℤ rc error_loading_devices
    then no_usbmuxd
    else if eq_ℤ rc error_no_devices
    then no_ios_devices
    else if eq_ℤ rc error_adding_forward
    then no_ios_connection
    else unexpected

-- What `Start` shows where adb fails.
pub record AdbShown (a : Adb) : Type 0 where
  pub server : a.server_ok ≡ false → adb_error_print (check_adb_devices a) ≡ no_adb
  pub pipe : a.pipe_ok ≡ false → adb_error_print (check_adb_devices a) ≡ no_adb
  pub device_offline :
      a.server_ok ≡ true
      → a.pipe_ok ≡ true
      → Decides a.lines error_device_offline
      → adb_error_print (check_adb_devices a) ≡ offline
  pub notauth :
      a.server_ok ≡ true
      → a.pipe_ok ≡ true
      → Decides a.lines error_device_notauth
      → adb_error_print (check_adb_devices a) ≡ unauthorized
  pub quiet :
      a.server_ok ≡ true
      → a.pipe_ok ≡ true
      → Silent a.lines
      → adb_error_print (check_adb_devices a) ≡ no_devices
  pub forward :
      a.server_ok ≡ true
      → a.pipe_ok ≡ true
      → Decides a.lines no_error
      → a.forward_ok ≡ false
      → adb_error_print (check_adb_devices a) ≡ forward_failed
  pub forward_killed :
      (n : ℕ)
      → a.server_ok ≡ true
      → a.pipe_ok ≡ true
      → Decides a.lines no_error
      → a.forward_ok ≡ true
      → a.forward ≡ pos (n + 1)
      → adb_error_print (check_adb_devices a) ≡ no_devices

-- What it shows where usbmuxd fails.
pub record IosShown (u : Usbmuxd) : Type 0 where
  pub list :
      ltb_ℤ u.device_count (pos 0) ≡ true → ios_error_print (check_ios_devices u).0 ≡ no_usbmuxd
  pub none_found :
      eq_ℤ u.device_count (pos 0) ≡ true → ios_error_print (check_ios_devices u).0 ≡ no_ios_devices
  pub connection :
      ltb_ℤ (pos 0) u.device_count ≡ true
      → leb_ℤ u.sfd (pos 0) ≡ true
      → ios_error_print (check_ios_devices u).0 ≡ no_ios_connection
