-- ===== src/Usb/Ios.antt =====
-- `CheckiOSDevices` of src/usb.c.
use droidcam_linux_client.Prelude.{if◌then◌else◌, List, [], ◌∷◌}
use droidcam_linux_client.Prelude.Int.{ℤ, pos, ltb_ℤ, leb_ℤ, eq_ℤ}
use droidcam_linux_client.Usb.Adb.{error_no_devices, error_loading_devices, error_adding_forward}

-- What usbmuxd answers: the number of devices, and the socket to the first of them.
pub record Usbmuxd : Type 0 where
  pub device_count : ℤ
  pub sfd : ℤ

-- The calls that change something: the device list is there, is freed, and the socket is set to
-- blocking mode.
pub data UsbOp : Type 0 where
  got_list freed_list set_blocking : UsbOp

-- The result, and the calls. A negative count comes without a list.
unfoldable pub check_ios_devices : Usbmuxd → ℤ × List UsbOp
check_ios_devices u =
    if ltb_ℤ u.device_count (pos 0)
    then (error_loading_devices, [])
    else if eq_ℤ u.device_count (pos 0)
    then (error_no_devices, got_list ∷ freed_list ∷ [])
    else if leb_ℤ u.sfd (pos 0)
    then (error_adding_forward, got_list ∷ freed_list ∷ [])
    else (u.sfd, got_list ∷ set_blocking ∷ freed_list ∷ [])
