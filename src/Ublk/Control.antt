-- ===== src/Ublk/Control.antt =====
-- crates/duende-ublk/src/control.rs: commands to a device through a ring of submissions and
-- completions. The crate `io_uring` is an interface with its documented behaviour; the sleep between
-- two looks at the ring, and the clock, belong to its state.
pub mod Loop
pub mod Commands
pub mod Simulated
use duende.Prelude.{
  ℕ, zero, suc, ◌+◌, ◌-◌, ◌*◌, ◌/◌, ◌≤◌, ◌≡◌, Bool, true, false, Option, none, some, List, [], ◌∷◌,
  ◌++◌, ltb, if◌then◌else◌,
}
use duende.Core.Types.{ℤ}
use duende.Ublk.Error.{
  UblkError, control_device_not_found, open_control, device_not_found, device_busy, io_uring_create,
  io_uring_submit, timeout, from_errno, is_minus, is_negative, enoent, ebusy, enospc, Result, ok,
  err,
}
use duende.Ublk.Sys.{
  UblkCtrlCmdExt, UblkCtrlDevInfo, for_device, to_bytes, ublk_u_cmd_del_dev, ublk_u_cmd_stop_dev,
  ublk_u_cmd_get_dev_info, default_cmd, info_size, zeros,
}

pub record Sqe : Type 0 where
  pub opcode : ℕ  -- u32
  pub cmd : List ℕ  -- 80 bytes
  pub user_data : ℕ

-- Between two looks at the ring the thread sleeps for at least 10 ms.
abbrev pub sleep_ns : ℕ
sleep_ns = 10000000

-- The results of completions are read first in, first out; a submission adds what has completed by
-- then, and so does a sleep.
pub record Ring : Type 1 where
  pub State : Type 0
  pub pending : State → List ℤ
  pub sent : State → List Sqe
  pub room : State → Bool
  pub now : State → ℕ
  pub push : Sqe → State → Option State
  pub submit : State → Option ℕ × State
  pub submit_and_wait : State → Option ℕ × State
  pub next : State → Option (ℤ × State)
  pub sleep : State → State
  pub push_room :
      (q : Sqe) (s : State)
      → room s ≡ true
      → (s' : State) × (push q s ≡ some s')
        × (pending s' ≡ pending s)
        × (sent s' ≡ sent s ++ (q ∷ []))
  pub push_full : (q : Sqe) (s : State) → room s ≡ false → push q s ≡ none
  pub submit_grows :
      (s : State)
      → (more : List ℤ) × (pending (submit s).1 ≡ pending s ++ more) × (sent (submit s).1 ≡ sent s)
  pub submit_room : (s : State) → (submit s).0 ≡ none → room (submit s).1 ≡ true
  pub next_empty : (s : State) → pending s ≡ [] → next s ≡ none
  pub next_item :
      (s : State) (r : ℤ) (rs : List ℤ)
      → pending s ≡ r ∷ rs
      → (s' : State) × (next s ≡ some (r, s'))
        × (pending s' ≡ rs)
        × (sent s' ≡ sent s)
        × (room s' ≡ room s)
  pub sleep_keeps : (s : State) → (sent (sleep s) ≡ sent s) × (room (sleep s) ≡ room s)
  pub sleep_takes : (s : State) → now s + sleep_ns ≤ now (sleep s)

-- What the loop makes of a completion.
unfoldable pub read_completion : ℕ → ℤ → Result Bool
read_completion dev_id res =
    if is_negative res
    then (if is_minus enoent res
        then ok false
        else if is_minus ebusy res
        then err (device_busy dev_id)
        else err (from_errno res))
    else ok true

unfoldable pub interpret_command_result : ℤ → ℕ → Result Bool
interpret_command_result res dev_id =
    if is_negative res
    then (if is_minus enoent res
        then ok false
        else (if is_minus ebusy res then err (device_busy dev_id) else err (from_errno res)))
    else ok true

unfoldable pub build_device_command : ℕ → UblkCtrlCmdExt
unfolding for_device
build_device_command dev_id = for_device dev_id

unfoldable pub build_get_info_command : ℕ → ℕ → UblkCtrlCmdExt
build_get_info_command dev_id info_ptr = record {
  cmd = record default_cmd { dev_id = dev_id; queue_id = 65535; len = info_size; addr = info_ptr };
  padding = zeros 48;
}

abbrev pub device_sqe : ℕ → ℕ → Sqe
unfolding for_device to_bytes
device_sqe opcode dev_id = record {
  opcode = opcode;
  cmd = to_bytes (for_device dev_id);
  user_data = 1;
}

abbrev pub info_sqe : ℕ → ℕ → Sqe
unfolding build_get_info_command to_bytes ublk_u_cmd_get_dev_info
info_sqe dev_id info_ptr = record {
  opcode = ublk_u_cmd_get_dev_info;
  cmd = to_bytes (build_get_info_command dev_id info_ptr);
  user_data = 1;
}

-- Five seconds, in nanoseconds.
abbrev pub command_timeout : ℕ
command_timeout = 5000000000

-- The looks at the ring that a loop takes at most.
abbrev pub looks : ℕ → ℕ
looks limit = limit / sleep_ns + 2

-- `none` while the control device does not answer and the loop has looked `fuel` times.
module _ (u : Ring) where
  unfoldable pub poll : ℕ → ℕ → ℕ → ℕ → u.State → Option (Result Bool × u.State)
  unfolding read_completion
  poll zero limit start dev_id s = none
  poll (suc fuel) limit start dev_id s =
      let later = poll fuel limit start dev_id (u.sleep s) in
      elim (u.next s) [
        | some (res, s') ↦ some (read_completion dev_id res, s')
        | none ↦
            if ltb limit (u.now s - start) then some (err (timeout (limit / 1000000)), s) else later
      ]

  -- After the push: submit, and look for the completion.
  unfoldable pub submitted : ℕ → ℕ → u.State → Option (Result Bool × u.State)
  unfolding poll
  submitted limit dev_id s =
      let s' = (u.submit s).1 in
      elim (u.submit s).0 [
        | some code ↦ some (err (io_uring_submit code), s')
        | none ↦ poll (looks limit) limit (u.now s') dev_id s'
      ]

  unfoldable pub send_command_timeout : ℕ → ℕ → ℕ → u.State → Option (Result Bool × u.State)
  unfolding device_sqe submitted
  send_command_timeout dev_id opcode limit s = elim (u.push (device_sqe opcode dev_id) s) [
    | none ↦ some (err (io_uring_submit enospc), s)
    | some s' ↦ submitted limit dev_id s'
  ]

  unfoldable pub send_command : ℕ → ℕ → u.State → Option (Result Bool × u.State)
  unfolding send_command_timeout
  send_command dev_id opcode s = send_command_timeout dev_id opcode command_timeout s

  unfoldable pub delete_device : ℕ → u.State → Option (Result Bool × u.State)
  unfolding send_command ublk_u_cmd_del_dev
  delete_device dev_id s = send_command dev_id ublk_u_cmd_del_dev s

  unfoldable pub stop_device : ℕ → u.State → Option (Result Bool × u.State)
  unfolding send_command ublk_u_cmd_stop_dev
  stop_device dev_id s = send_command dev_id ublk_u_cmd_stop_dev s

  -- The result of the stop is ignored.
  unfoldable pub force_delete : ℕ → u.State → Option (Result Bool × u.State)
  unfolding stop_device delete_device
  force_delete dev_id s = elim (stop_device dev_id s) [
    | none ↦ none
    | some (r, s') ↦ delete_device dev_id s'
  ]

  abbrev info_result : ℕ → UblkCtrlDevInfo → u.State → Result UblkCtrlDevInfo × u.State
  info_result dev_id info s = elim (u.next s) [
    | none ↦ (ok info, s)
    | some (res, s') ↦
        if is_negative res
        then (if is_minus enoent res
            then (err (device_not_found dev_id), s')
            else (err (from_errno res), s'))
        else (ok info, s')
  ]

  -- `info` is what the buffer at `info_ptr` holds after the wait.
  unfoldable pub get_device_info :
      ℕ → ℕ → UblkCtrlDevInfo → u.State → Result UblkCtrlDevInfo × u.State
  unfolding info_sqe
  get_device_info dev_id info_ptr info s = elim (u.push (info_sqe dev_id info_ptr) s) [
    | none ↦ (err (io_uring_submit enospc), s)
    | some s' ↦
        let s'' = (u.submit_and_wait s').1 in
        elim (u.submit_and_wait s').0 [
          | some code ↦ (err (io_uring_submit code), s'')
          | none ↦ info_result dev_id info s''
        ]
  ]

  -- What opening the file and creating the ring return, if the control device is there.
  unfoldable pub open_device : Bool → Option ℕ → Option ℕ → u.State → Result u.State
  open_device exists file_error ring_error s =
      if exists
      then elim file_error [
        | some code ↦ err (open_control code)
        | none ↦ elim ring_error [ some code ↦ err (io_uring_create code) | none ↦ ok s ]
      ]
      else err control_device_not_found
