-- ===== src/Ublk/Sys.antt =====
-- crates/duende-ublk/src/sys.rs: the numbers and structures of the kernel's interface. A structure
-- is laid out in the order of its fields, as `repr(C)` does where no field needs padding.
pub mod Layout
use Prim.Native.Nat.{bit_or}
use duende.Prelude.{ℕ, zero, suc, ◌+◌, ◌*◌, ◌^◌, List, [], ◌∷◌, ◌++◌, wrap32}
use duende.Prelude.Bytes.{bytes}

abbrev pub ublk_magic : ℕ
ublk_magic = 117

unfoldable pub ior : ℕ → ℕ → ℕ → ℕ
ior ty nr sz =
    bit_or (bit_or (bit_or (2 * 2 ^ 30) (wrap32 (wrap32 sz * 2 ^ 16))) (wrap32 (ty * 2 ^ 8))) nr

unfoldable pub iowr : ℕ → ℕ → ℕ → ℕ
iowr ty nr sz =
    bit_or (bit_or (bit_or (3 * 2 ^ 30) (wrap32 (wrap32 sz * 2 ^ 16))) (wrap32 (ty * 2 ^ 8))) nr

-- The size of `UblkCtrlCmd`.
abbrev pub cmd_size : ℕ
cmd_size = 32

unfoldable pub ublk_u_cmd_get_dev_info : ℕ
unfolding ior
ublk_u_cmd_get_dev_info = ior ublk_magic 2 cmd_size

unfoldable pub ublk_u_cmd_del_dev : ℕ
unfolding iowr
ublk_u_cmd_del_dev = iowr ublk_magic 5 cmd_size

unfoldable pub ublk_u_cmd_stop_dev : ℕ
unfolding iowr
ublk_u_cmd_stop_dev = iowr ublk_magic 7 cmd_size

pub record UblkCtrlCmd : Type 0 where
  pub dev_id : ℕ  -- u32
  pub queue_id : ℕ  -- u16
  pub len : ℕ  -- u16
  pub addr : ℕ  -- u64
  pub data_word : ℕ  -- the one u64 of the array
  pub dev_path_len : ℕ  -- u16
  pub pad : ℕ  -- u16
  pub reserved : ℕ  -- u32

abbrev pub default_cmd : UblkCtrlCmd
default_cmd = record {
  dev_id = 4294967295;
  queue_id = 65535;
  len = 0;
  addr = 0;
  data_word = 0;
  dev_path_len = 0;
  pad = 0;
  reserved = 0;
}

pub record UblkCtrlCmdExt : Type 0 where
  pub cmd : UblkCtrlCmd
  pub padding : List ℕ  -- 48 bytes

abbrev pub zeros : ℕ → List ℕ
zeros zero = []
zeros (suc n) = 0 ∷ zeros n

abbrev pub default_ext : UblkCtrlCmdExt
default_ext = record { cmd = default_cmd; padding = zeros 48 }

unfoldable pub for_device : ℕ → UblkCtrlCmdExt
for_device dev_id = record {
  cmd = record default_cmd { dev_id = dev_id; queue_id = 65535 };
  padding = zeros 48;
}

unfoldable pub cmd_bytes : UblkCtrlCmd → List ℕ → List ℕ
unfolding bytes
cmd_bytes c rest =
    bytes 4 c.dev_id
    ++ (bytes 2 c.queue_id
        ++ (bytes 2 c.len
            ++ (bytes 8 c.addr
                ++ (bytes 8 c.data_word
                    ++ (bytes 2 c.dev_path_len
                        ++ (bytes 2 c.pad ++ (bytes 4 c.reserved ++ rest)))))))

-- The transmutation into 80 bytes.
unfoldable pub to_bytes : UblkCtrlCmdExt → List ℕ
unfolding cmd_bytes
to_bytes e = cmd_bytes e.cmd e.padding

pub record UblkCtrlDevInfo : Type 0 where
  pub nr_hw_queues : ℕ  -- u16
  pub queue_depth : ℕ  -- u16
  pub state : ℕ  -- u16
  pub pad0 : ℕ  -- u16
  pub max_io_buf_bytes : ℕ  -- u32
  pub dev_id : ℕ  -- u32
  pub ublksrv_pid : ℕ  -- i32, as its bit pattern
  pub pad1 : ℕ  -- u32
  pub flags : ℕ  -- u64
  pub ublksrv_flags : ℕ  -- u64
  pub owner_uid : ℕ  -- u32
  pub owner_gid : ℕ  -- u32
  pub reserved1 : ℕ  -- u64
  pub reserved2 : ℕ  -- u64

abbrev pub default_info : UblkCtrlDevInfo
default_info = record {
  nr_hw_queues = 0;
  queue_depth = 0;
  state = 0;
  pad0 = 0;
  max_io_buf_bytes = 0;
  dev_id = 0;
  ublksrv_pid = 0;
  pad1 = 0;
  flags = 0;
  ublksrv_flags = 0;
  owner_uid = 0;
  owner_gid = 0;
  reserved1 = 0;
  reserved2 = 0;
}

-- The size of `UblkCtrlDevInfo`.
abbrev pub info_size : ℕ
info_size = 64
