-- ===== src/Robot/Dog/Packet.antt =====
-- include/features/dog/command.hpp: packing and unpacking of commands. A packet is its list of bytes,
-- and a 32-bit field is little-endian, as on the machines that the code runs on.
use dankong.Prelude.{
  ℕ, suc, ◌+◌, ◌*◌, ◌/◌, ◌%◌, ◌^◌, Bool, not, ◌||◌, Option, none, some, List, [], ◌∷◌, ◌++◌,
  if◌then◌else◌, ◌==◌, ltb, length, take, drop, get_or,
}
use dankong.Core.{Result, ok, throws}

-- CommandType
pub data Command : Type 0 where
  manual_heartbeat enter_l_mode exit_l_mode toggle_stand_down set_aim_pose reset_aim_pose
        motion_mode_manual motion_mode_navigation move_x_axis move_y_axis move_yaw_axis
        axis_command_no_dead_zone set_platform_height gait_walk gait_run switch_speed_gear
        emergency_stop camera_control upper_power_switch driver_joint_data_switch state_data_switch
        run_status_report motion_state_report sensor_data_report controller_safe_data_report
        battery_level_report battery_charge_state_report error_code_report :
      Command

unfoldable pub command_id : Command → ℕ
command_id manual_heartbeat = 0x21040001
command_id enter_l_mode = 0x21010220
command_id exit_l_mode = 0x21010221
command_id toggle_stand_down = 0x21010202
command_id set_aim_pose = 0x010B06
command_id reset_aim_pose = 59
command_id motion_mode_manual = 0x21010C02
command_id motion_mode_navigation = 0x21010C04
command_id move_x_axis = 0x21010130
command_id move_y_axis = 0x21010131
command_id move_yaw_axis = 0x21010135
command_id axis_command_no_dead_zone = 0x21010140
command_id set_platform_height = 0x21010406
command_id gait_walk = 0x21010420
command_id gait_run = 0x21010423
command_id switch_speed_gear = 0x31010F11
command_id emergency_stop = 0x21010C0E
command_id camera_control = 0x21010F12
command_id upper_power_switch = 0x80110801
command_id driver_joint_data_switch = 0x80110201
command_id state_data_switch = 0x80110202
command_id run_status_report = 0x1008
command_id motion_state_report = 0x1009
command_id sensor_data_report = 0x100A
command_id controller_safe_data_report = 0x100B
command_id battery_level_report = 0x11050F01
command_id battery_charge_state_report = 0x11050F21
command_id error_code_report = 0x12050F01

unfoldable pub get_command_extension_type : Command → ℕ
get_command_extension_type set_aim_pose = 1
get_command_extension_type axis_command_no_dead_zone = 1
get_command_extension_type run_status_report = 1
get_command_extension_type motion_state_report = 1
get_command_extension_type sensor_data_report = 1
get_command_extension_type controller_safe_data_report = 1
get_command_extension_type _ = 0

-- The four bytes of a uint32_t.
abbrev pub u32_bytes : ℕ → List ℕ
u32_bytes n = n % 256 ∷ (n / 2 ^ 8) % 256 ∷ (n / 2 ^ 16) % 256 ∷ (n / 2 ^ 24) % 256 ∷ []

abbrev pub u32_at : List ℕ → ℕ → ℕ
u32_at bs i =
    get_or bs i 0
    + 2 ^ 8 * get_or bs (suc i) 0
    + 2 ^ 16 * get_or bs (suc (suc i)) 0
    + 2 ^ 24 * get_or bs (suc (suc (suc i))) 0

-- sizeof(CommandHead)
abbrev pub head_size : ℕ
head_size = 12

-- The packet without a payload.
unfoldable pub pack_cmd : Command → ℕ → List ℕ
unfolding command_id
pack_cmd c parameter_size = u32_bytes (command_id c) ++ u32_bytes parameter_size ++ u32_bytes 0

-- The packet with the bytes of a payload.
unfoldable pub pack_payload : Command → List ℕ → List ℕ
pack_payload c payload =
    u32_bytes (command_id c)
    ++ u32_bytes (length payload)
    ++ u32_bytes (get_command_extension_type c)
    ++ payload

-- UdpPacketView: the constructor refuses what is too short for a head.
unfoldable pub view : List ℕ → Result (List ℕ)
view packet =
    if ltb (length packet) head_size then throws "Packet too small for header" else ok packet

-- The fields of the head.
abbrev pub command : List ℕ → ℕ
command v = u32_at v 0

abbrev pub parameter_size : List ℕ → ℕ
parameter_size v = u32_at v 4

abbrev pub command_type : List ℕ → ℕ
command_type v = u32_at v 8

-- `get_payload<PayloadType>()`, where `size` is the size of the type: `none` is a null pointer.
unfoldable pub get_payload : ℕ → List ℕ → Option (List ℕ)
get_payload size v =
    if not (parameter_size v == size) || ltb (length v) (head_size + size)
    then none
    else some (take size (drop head_size v))

unfoldable pub get_battery_level : List ℕ → ℕ
get_battery_level v = parameter_size v

pub record ChargeState : Type 0 where
  pub level : ℕ
  pub is_charging : Bool

unfoldable pub get_charge_state : List ℕ → ChargeState
get_charge_state v = record {
  level = (parameter_size v / 2 ^ 8) % 2 ^ 24;
  is_charging = parameter_size v % 2 ^ 8 == 1;
}
