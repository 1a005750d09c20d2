-- ===== src/Ublk/Error.antt =====
-- crates/duende-ublk/src/error.rs: the errors of the control device. The numbers of `libc` are those
-- of Linux.
use duende.Prelude.{ℕ, ◌+◌, Bool, true, false, String, ◌==◌, if◌then◌else◌}
use duende.Core.Types.{ℤ, pos, negsuc}

abbrev pub eperm : ℕ
eperm = 1

abbrev pub enoent : ℕ
enoent = 2

abbrev pub ebusy : ℕ
ebusy = 16

abbrev pub eexist : ℕ
eexist = 17

abbrev pub einval : ℕ
einval = 22

abbrev pub enospc : ℕ
enospc = 28

-- `code == -number` for a number above 0.
abbrev pub is_minus : ℕ → ℤ → Bool
is_minus number (pos n) = false
is_minus number (negsuc n) = n + 1 == number

abbrev pub is_negative : ℤ → Bool
is_negative (pos n) = false
is_negative (negsuc n) = true

-- The text of a message, or the number put into "unknown error ({})".
pub data Message : Type 0 where
  text : String → Message
  unknown_error : ℤ → Message

-- A `std::io::Error` is its error code.
pub data UblkError : Type 0 where
  control_device_not_found : UblkError
  open_control : ℕ → UblkError
  device_not_found device_busy : ℕ → UblkError
  io_uring_create io_uring_submit : ℕ → UblkError
  io_uring_command : ℤ → Message → UblkError
  scan_dev_dir : ℕ → UblkError
  timeout : ℕ → UblkError

unfoldable pub from_errno : ℤ → UblkError
from_errno errno = io_uring_command errno (
    if is_minus enoent errno
    then text "device not found"
    else if is_minus eexist errno
    then text "device already exists"
    else if is_minus ebusy errno
    then text "device is busy"
    else if is_minus eperm errno
    then text "permission denied"
    else if is_minus einval errno
    then text "invalid argument"
    else unknown_error errno)

unfoldable pub is_not_found : UblkError → Bool
is_not_found (device_not_found id) = true
is_not_found (io_uring_command errno m) = is_minus enoent errno
is_not_found _ = false

unfoldable pub is_permission_denied : UblkError → Bool
is_permission_denied (io_uring_command errno m) = is_minus eperm errno
is_permission_denied _ = false

pub data Result {ℓ} (T : Type ℓ) : Type ℓ where
  err : UblkError → Result T
  ok : T → Result T

infixl 5 ◌>>=◌
abbrev pub ◌>>=◌ {ℓ κ} : {S : Type ℓ} {T : Type κ} → Result S → (S → Result T) → Result T
err failure >>= next = err failure
ok value >>= next = next value
