-- ===== src/GripperDriver.antt =====
-- src/driver/gripper_driver_impl.cpp: commands to the grippers, and the status that comes back.
-- The bus is a parameter; an observer is the identity of the object that its pointer holds.
pub mod Status
use hardware_driver.Base.{
  ℕ, ◌%◌, ◌^◌, String, List, [], ◌∷◌, ◌++◌, Bool, true, false, ltb, leb, ◌==◌, if◌then◌else◌,
  Option, none, some, get_or, find, assign, map, nat_eq, string_eq,
}
use hardware_driver.Bus.{Outcome, done, overrun, GenericBusPacket, SendResult, send_all}
use hardware_driver.GripperProtocol.{
  GripperType, recv_gripper_id, omni_picker_feedback, pgc_feedback, build_gripper_control,
}

pub record GripperStatus : Type 0 where
  pub position : ℕ
  pub velocity : ℕ
  pub force : ℕ
  pub status : ℕ
  pub action_status : ℕ
  pub has_object : Bool
  pub is_moving : Bool

pub record GripperDriver : Type 0 where
  pub observers : List ℕ
  pub status_cache : List (String × List (ℕ × GripperStatus))

-- The constructor refuses a null bus by an exception.
pub new_gripper_driver : Bool → Option GripperDriver
new_gripper_driver bus_is_null =
    if bus_is_null then none else some (record { observers = []; status_cache = [] })

-- The packets that reach `bus_->send`, with whether the bus threw; a refusal is only logged.
send_packets :
    (GenericBusPacket → SendResult)
    → Outcome (List GenericBusPacket)
    → Outcome (List GenericBusPacket × Bool)
send_packets send (done ps) = done (send_all send ps)
send_packets send overrun = overrun

module _ (send : GenericBusPacket → SendResult) (raw : List ℕ) where
  unfoldable pub control_gripper :
      String → GripperType → ℕ → ℕ → ℕ → Outcome (List GenericBusPacket × Bool)
  unfolding send_packets
  control_gripper interface t position velocity effort =
      send_packets send (build_gripper_control raw interface t position velocity effort none 0)

  unfoldable pub send_raw_data :
      String → Option (List ℕ) → ℕ → Outcome (List GenericBusPacket × Bool)
  unfolding send_packets
  send_raw_data interface none n = done ([], false)
  send_raw_data interface (some d) n =
      if n == 0
      then done ([], false)
      else send_packets send
          (build_gripper_control raw interface GripperType.raw_frame 0 0 0 (some d) n)

  unfoldable pub open_gripper :
      String → GripperType → ℕ → ℕ → Outcome (List GenericBusPacket × Bool)
  unfolding control_gripper
  open_gripper interface t velocity effort = control_gripper interface t 0 velocity effort

  unfoldable pub close_gripper :
      String → GripperType → ℕ → ℕ → Outcome (List GenericBusPacket × Bool)
  unfolding control_gripper
  close_gripper interface t velocity effort = control_gripper interface t 100 velocity effort

-- A null pointer is `none`.
pub add_observer : GripperDriver → Option ℕ → GripperDriver
add_observer s none = s
add_observer s (some o) = record s { observers = s.observers ++ o ∷ [] }

-- `std::remove` and `erase`: every copy goes.
pub without : ℕ → List ℕ → List ℕ
without o [] = []
without o (x ∷ xs) = if x == o then without o xs else x ∷ without o xs

pub remove_observer : GripperDriver → Option ℕ → GripperDriver
unfolding without
remove_observer s none = s
remove_observer s (some o) = record s { observers = without o s.observers }

-- The status of a packet; `fresh` is what the uninitialised `GripperStatus status` holds.
pub status_of : GripperStatus → GenericBusPacket → GripperStatus
status_of fresh p =
    if get_or p.payload 0 0 == 0x01
    then record {
      position = get_or omni 3 0;
      velocity = get_or omni 4 0;
      force = get_or omni 5 0;
      status = get_or omni 1 0;
      action_status = get_or omni 2 0;
      has_object = get_or omni 2 0 == 0x00;
      is_moving = get_or omni 2 0 == 0x01;
    }
    else if get_or p.payload 0 0 == 0x02
    then record fresh {
      status = get_or pgc 1 0;
      has_object = get_or pgc 1 0 == 0x02;
      is_moving = get_or pgc 1 0 == 0x00;
    }
    else fresh
  where
    omni : List ℕ
    omni = omni_picker_feedback p.payload (p.len % 2 ^ 8)

    pgc : List ℕ
    pgc = pgc_feedback p.payload (p.len % 2 ^ 8)

-- A call of `on_gripper_status_update`.
pub record Notice : Type 0 where
  pub observer : ℕ
  pub interface : String
  pub gripper_id : ℕ
  pub status : GripperStatus

abbrev pub notify_observers : GripperDriver → String → ℕ → GripperStatus → List Notice
notify_observers s interface gripper_id status =
    map
      (λ o. record {
        observer = o;
        interface = interface;
        gripper_id = gripper_id;
        status = status;
      })
      s.observers

-- `status_cache_[interface][1] = status`
abbrev pub cached : GripperDriver → String → List (ℕ × GripperStatus)
cached s interface = elim (find interface s.status_cache) [ none ↦ [] | some m ↦ m ]

pub receive_callback :
    GripperStatus → GripperDriver → GenericBusPacket → GripperDriver × List Notice
receive_callback fresh s p =
    if p.id == recv_gripper_id
    then if leb 6 p.len
      then (
        record s {
          status_cache =
              assign p.interface (assign 1 (status_of fresh p) (cached s p.interface))
                s.status_cache;
        },
        notify_observers s p.interface 1 (status_of fresh p),
      )
      else (s, [])
    else (s, [])
