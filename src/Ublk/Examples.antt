-- ===== src/Ublk/Examples.antt =====
-- The theorems of the control of ublk devices at concrete inputs, and its constants (sys.rs,
-- control.rs).
use duende.Prelude.{
  ◌≡◌, refl, inr, true, ◌||◌, none, some, [], ◌∷◌, ◌++◌, length, drop, arith, filter, if◌then◌else◌,
}
use duende.Prelude.Text.{chars, same_text, strip_prefix}
use duende.Prelude.Decimal.{to_string, parse, parse_digits, print}
use duende.Ublk.Error.{ok, ◌>>=◌}
use duende.Ublk.Sys.{
  ublk_u_cmd_get_dev_info, ublk_u_cmd_del_dev, ublk_u_cmd_stop_dev, for_device, UblkCtrlCmdExt,
  to_bytes,
}
use duende.Ublk.Sys.Layout.{decode, IsCmd, decode-to_bytes}
use duende.Ublk.Control.{device_sqe, force_delete}
use duende.Ublk.Control.Simulated.{Kernel, simulated}
use duende.Ublk.Control.Commands.{Accepts}
use duende.Ublk.Devices.{
  Files, parse_char_device_id, detect_orphans_in_dir, detect_orphaned_devices,
  cleanup_orphaned_devices,
}
use duende.Ublk.Devices.Orphans.{
  alone, ids, listing, parse_char_device_id_lem, detect_orphans_in_dir_lem,
}
use duende.Ublk.Devices.Cleaning.{Cleaned, cleanup_orphaned_devices-orphans}

-- The numbers that the kernel's header gives.
get_dev_info_test : ublk_u_cmd_get_dev_info ≡ 2149610754
unfolding ublk_u_cmd_get_dev_info
get_dev_info_test = refl

del_dev_test : ublk_u_cmd_del_dev ≡ 3223352581
unfolding ublk_u_cmd_del_dev
del_dev_test = refl

stop_dev_test : ublk_u_cmd_stop_dev ≡ 3223352583
unfolding ublk_u_cmd_stop_dev
stop_dev_test = refl

-- Two character devices, one of which has its block device.
abbrev dev : Files
dev = record {
  exists = λ p. same_text p (chars "/dev") || same_text p (chars "/dev/ublkb5");
  read_dir = λ p. inr (
      inr (chars "null") ∷ inr (chars "ublkc3") ∷ inr (chars "ublkc5") ∷ inr (chars "ublkb5") ∷ []);
}

abbrev empty_ring : Kernel
empty_ring = record { waiting = []; log = []; clock = 0; queued = 0 }

dev-orphans : detect_orphaned_devices dev ≡ ok (3 ∷ [])
unfolding detect_orphaned_devices strip_prefix parse parse_digits print
dev-orphans = refl

parse_char_device_id_lem_example :
    (parse_char_device_id (chars "ublkc" ++ to_string 42) ≡ some 42)
    × (parse_char_device_id (chars "ublkb" ++ to_string 42) ≡ none)
parse_char_device_id_lem_example = parse_char_device_id_lem 42 (omega arith)

detect_orphans_in_dir_lem_example : detect_orphans_in_dir dev (chars "/dev") ≡ (
    if dev.exists (chars "/dev")
    then listing (dev.read_dir (chars "/dev"))
      >>= (λ l. ok (filter (alone dev (chars "/dev")) (ids l)))
    else ok [])
detect_orphans_in_dir_lem_example = detect_orphans_in_dir_lem dev (chars "/dev")

empty-Accepts : Accepts simulated empty_ring
empty-Accepts = (refl, λ t. refl)

cleanup_orphaned_devices-orphans_example :
    Cleaned simulated
      (3 ∷ [])
      0
      empty_ring
      (cleanup_orphaned_devices simulated dev (ok empty_ring) empty_ring)
cleanup_orphaned_devices-orphans_example =
    cleanup_orphaned_devices-orphans simulated dev 3 [] empty_ring empty_ring dev-orphans
      empty-Accepts

abbrev two_commands : Kernel
two_commands = record {
  waiting = [];
  log = device_sqe ublk_u_cmd_stop_dev 3 ∷ device_sqe ublk_u_cmd_del_dev 3 ∷ [];
  clock = 0;
  queued = 0;
}

force_delete_test : force_delete simulated 3 empty_ring ≡ some (ok true, two_commands)
unfolding force_delete
force_delete_test = refl

abbrev command_for_3 : UblkCtrlCmdExt
unfolding for_device
command_for_3 = for_device 3

command_for_3-IsCmd : IsCmd command_for_3.cmd
unfolding for_device
command_for_3-IsCmd = record {
  dev_id_u32 = omega arith;
  queue_id_u16 = omega arith;
  len_u16 = omega arith;
  addr_u64 = omega arith;
  data_u64 = omega arith;
  dev_path_len_u16 = omega arith;
  pad_u16 = omega arith;
  reserved_u32 = omega arith;
}

decode-to_bytes_example :
    (decode (to_bytes command_for_3) ≡ command_for_3.cmd)
    × (length (to_bytes command_for_3) ≡ 80)
    × (drop 32 (to_bytes command_for_3) ≡ command_for_3.padding)
unfolding command_for_3
decode-to_bytes_example = decode-to_bytes command_for_3 command_for_3-IsCmd refl
