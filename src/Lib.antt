-- ===== src/Lib.antt =====
-- hardware-driver: commands to the joint motors, grippers and buttons of a robot arm, and what comes
-- back from them, over CAN FD.
--
-- The parts. A client calls `RobotHardware`, which hands commands to the motor driver. The motor
-- driver packs each into a bus packet (motor protocol), drops it where it repeats the last one for
-- its motor, and puts it into a priority queue, from which the control thread sends it to the bus. A
-- feedback thread asks the motors for their status; the bus puts what it receives into a second
-- queue, from which the data thread parses it and tells callbacks, observers and the event bus.
-- `RobotHardware` gathers the statuses of an interface into batches and runs trajectories in threads
-- of their own. Gripper and button driver share the bus. A firmware update runs in a thread that
-- pauses the feedback and offers the firmware, frame by frame, as commands.
--
-- The files, each with its children, which hold proofs where nothing else is said:
--   Base              lists, maps and Boolean tests over native numbers
--   Bus               include/hardware_driver/bus/bus_interface.hpp
--   Float32           the `float` of the hardware, by its bit pattern
--   MotorProtocol     src/protocol/motor_protocol.cpp: the parser; Pack: the packing functions
--   MotorDriver       src/driver/motor_driver_impl.cpp: state, filter and queue; Commands: the public
--                     commands; Construction: the constructor, on a CanFdBus; Dispatch:
--                     observers and `handle_bus_packet`, with the receive and the data thread in
--                     Turns; Feedback: the feedback thread; Update: the firmware update; System:
--                     the threads taking turns
--   IapProtocol       src/protocol/iap_protocol.cpp
--   GripperProtocol   src/protocol/gripper_omnipicker_protocol.cpp
--   GripperDriver     src/driver/gripper_driver_impl.cpp
--   ButtonDriver      src/driver/button_driver_impl.cpp
--   EventBus          include/hardware_driver/event/event_bus.hpp
--   MotorEvents       include/hardware_driver/event/motor_events.hpp
--   EventBridge       src/event/event_bridge.hpp
--   CanFdBus          src/bus/canfd_bus_impl.cpp
--   Usb2CanfdBus      src/bus/usb2canfd_bus_impl.cpp
--   RobotHardware     src/interface/robot_hardware.cpp: state, batches and real-time commands;
--                     Trajectory: one execution of a trajectory, its worker and its calls;
--                     Executions: the table of executions, and the calls by id and for all;
--                     Reception: from the driver's effects to the user's reports;
--                     Monitoring: the constructors, pausing and resuming of the monitoring;
--                     Delegates: the calls that are handed on to the drivers
--   Tests             concrete inputs
-- A function has the name that it has in the source; a class is a record of its fields; what a
-- function sends or tells is a result beside the new state.
--
-- Modelling. A byte is a number below 256, and a wider integer the number of its bits, with the
-- wrap-around written out. A `float` is its 32-bit pattern, and the arithmetic on it an interface.
-- Storage that the source leaves uninitialised is an argument. Time is what the caller's clock gives.
-- The steps of the two step relations, `System.Step` for the motor driver and `Trajectory.Step` for
-- an execution, are the sections of code that hold a lock, and for an execution also the look of a
-- call at the state and the sending of a point, which hold none; `Reach` is any row of steps. The
-- `Reach` of Executions/History is any row of launches, calls, which nothing interrupts there, and
-- workers' steps. `Dispatch.Turns` is any row of turns of the receive and the data thread alone. A
-- command counts as handed to the bus also where the bus then throws and so loses it. Which interfaces
-- the kernel binds and which converters their library opens are functions of the names. Whether an
-- observer still exists is a Boolean function of its identity. A write behind the end of an array is
-- the outcome `overrun`. A motor appears only as the frames that it sends.
--
-- Bounds. Both queues of the motor driver hold at most 128 entries, and a packet 64 bytes. The
-- firmware is cut with as many rounds as it has bytes, and each round takes at least one. A batch of
-- the control thread takes one round for each command that is queued; a wait for an answer is the row
-- of polls that the clock leaves it.
--
-- Not modelled: the class of the USB converter, of which the repository has declarations only, the
-- EtherCAT stub, the system calls that open sockets and pin threads, shutdown, log output and the
-- progress bar, and the factories, which only construct.
pub mod Base
pub mod Bus
pub mod Float32
pub mod MotorProtocol
pub mod GripperProtocol
pub mod GripperDriver
pub mod IapProtocol
pub mod MotorDriver
pub mod ButtonDriver
pub mod EventBus
pub mod MotorEvents
pub mod EventBridge
pub mod CanFdBus
pub mod Usb2CanfdBus
pub mod RobotHardware
mod Tests
