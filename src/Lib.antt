-- ===== src/Lib.antt =====
-- dankong: the control program of an uncrewed vehicle (a drone, a car, the Go2 or the Dog robot). A
-- state machine decides what the vehicle does; listeners turn requests from the network into
-- transitions of that machine; a tracker follows positions and velocities at a fixed rate; a robot
-- class translates commands for one kind of vehicle.
--
-- How the parts interact. A request is an event with an answer. A listener (src/features/control,
-- src/features/algo) checks it, asks the engine for transitions and answers it. The engine enters
-- and leaves states (include/states, src/states), and gives them ticks and events; a handler returns
-- an intent (unhandled, handled, next, a step to another state). A state commands the tracker
-- (include/features/tracker/tracker.hpp) and the robot (include/robot). The tracker's thread
-- (include/utils/thread_runner.hpp) takes the last command, computes a velocity and calls the robot.
--
-- Which file models which part:
--   Prelude       lists, Boolean tests, integers and vectors; `double` is any type with the
--                 operations of Prelude.Double, and Prelude.Milli is a concrete one for examples
--   Core          include/core, the events, the context and the configuration, and IRobot; a
--                 handler's calls are the list of `Effect`s that it makes, in order
--   StateUtils    include/states/state_utils.hpp and src/states/state_utils.cpp
--   States        include/states and src/states: a function for each handler; Waypoint has the
--                 mission (Mission), LiftingState (Lifting) and ExcuteState (Excute)
--   Control       src/features/control/event_listener.cpp: SetWaypoint, and the other requests in
--                 Commands; PoseHistory is that of include/features/control/context.hpp
--   Features      include/features/tracker/tracker.hpp (Tracker: Types is the state, Mailbox the
--                 calls of other threads, Activate, Control, Kinematics and Step the parts of
--                 on_step), src/features/algo/event_listener.cpp (Algo) and include/features/pland
--                 (Pland: Controller is PlandController, which by pure_vision servoes in the body
--                 frame (Servo) or pursues a point (Global, Rabbit), Descent its vertical part;
--                 TargetTracker, OffsetEstimator and Listener are the classes of these names). Ntrip
--                 is include/features/ntrip/ntrip_client.hpp, with its Base64 and, in Sockets, the
--                 order of its calls on sockets; Report is the listener of include/features/report,
--                 Recorder is include/features/algo/bag_recorder.hpp; Car and Go2 are the features of
--                 these names
--   Robot         include/robot: Drone, Car, Go2 and Dog, with the packets of
--                 include/features/dog/command.hpp
--   Mavlink       src/mavlink/mavsdk_drone.cpp (Sdk is what it calls, Drone its commands, Params the
--                 parameters, Rtcm the correction data, Modes the numbers of the modes),
--                 include/features/mavlink/feature.hpp (Telemetry, what it hears),
--                 include/features/control/mavros_bridge.hpp (Bridge) and gimbal_bridge.hpp (Gimbal),
--                 and src/features/mavlink/event_listener.cpp (Listener)
--   Utils         include/utils: dirty_var.hpp (Dirty), state_registry.hpp (Registry),
--                 fixed_string64.hpp (FixedString), thread_runner.hpp (Runner),
--                 datum_synchronizer.hpp (Datum) and request.hpp (Request)
--   Samples       concrete data; each component has its runs in a module Tests
--
-- Conventions. An exception is `throws` of Core.Errors. A call of the engine, the tracker, the robot
-- or a publisher is an `Effect`, and a bridge or a client has a type of calls of its own; the answers
-- of devices, of MAVSDK, of sockets, of processes and of GeographicLib are fields of the records
-- `Robot`, `Mavlink`, `Sdk`, `Net`, `System` and `Utm`, that is arguments. Time and what the vehicle
-- senses are arguments. The order laws of `double` that a theorem needs are in `IsOrdered`, which hold
-- with NaN among the values. A callback of the tracker is a function of the time at which it is
-- called.
--
-- Bounds and fuel. norm_yaw turns at most a thousand times each way; a larger angle is left where
-- the fuel ends, and no theorem is about that loop. The loop of trySync is by recursion on the
-- buffer of fixes, of which each turn takes one away or ends the loop. The run of a mission in Excute/Progress has as fuel any number
-- that is not less than the waypoints that are left.
-- The loop of load_pdef takes as fuel any number that is not less than that of the elements of the
-- file; the loop of send_rtcm_data the number of the bytes. The loops of normalize_yaw turn at most a
-- thousand times, and no theorem is about them. The loop that waits for GUIDED makes at most 20
-- queries, as in the code.
--
-- Not modelled: the engine and the network library (dk, a submodule), whose call_every repeats the
-- callback of Dog::land, the start-up of the node,
-- the detector of the precise landing and its filters, the generated CAN code, logging,
-- configuration files and the Python tests. The locks of the tracker are not modelled: each of its
-- operations is one step, and so is each operation of the client of correction data, although stop
-- may run beside a step of its thread.
pub mod Prelude
pub mod Core
pub mod StateUtils
pub mod States
pub mod Control
pub mod Robot
pub mod Mavlink
pub mod Features
pub mod Utils
pub mod Samples
