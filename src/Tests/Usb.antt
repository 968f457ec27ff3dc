-- ===== src/Tests/Usb.antt =====
-- Inputs for the theorem on the bus over USB.
use hardware_driver.Base.{◌+◌, ◌≡◌, ◌++◌, refl, [], ◌∷◌, some, true, arith}
use hardware_driver.Bus.{GenericBusPacket}
use hardware_driver.MotorProtocol.{status_feedback, parse_feedback}
use hardware_driver.MotorProtocol.RoundTrip.{status_frame}
use hardware_driver.Usb2CanfdBus.{Usb2CanfdBus, device_receives}
use hardware_driver.Usb2CanfdBus.Truncation.{cut_off, device_receives-status_frame}
use hardware_driver.Tests.{storage, can0, a_status, a_status-IsInRange}

abbrev a_usb_bus : Usb2CanfdBus
a_usb_bus = record {
  usb_devices = ("usb_canfd_0", "A1") ∷ [];
  interface_to_sn = ("usb_canfd_0", "A1") ∷ [];
  interface_names = "usb_canfd_0" ∷ [];
  receive_callback = true;
}

device_receives-status_frame_example :
    (p : GenericBusPacket) × (device_receives a_usb_bus storage can0
        (0x300 + 3)
        (status_frame a_status ++ [])
      ≡ some p)
    × (parse_feedback p
        ≡ some (
            status_feedback
              (record { status = cut_off a_status storage; interface = can0; motor_id = 3 })))
device_receives-status_frame_example =
    device_receives-status_frame a_usb_bus storage can0 3 a_status [] refl refl (omega arith)
      a_status-IsInRange
