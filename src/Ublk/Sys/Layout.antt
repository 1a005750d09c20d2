-- ===== src/Ublk/Sys/Layout.antt =====
-- The bytes of a command are those that the kernel reads at its own offsets (sys.rs).
use duende.Prelude.{ℕ, ◌<◌, ◌^◌, ◌≡◌, refl, List, arith, length, drop}
use duende.Prelude.Bytes.{bytes, word, word-bytes}
use duende.Ublk.Sys.{UblkCtrlCmd, UblkCtrlCmdExt, cmd_bytes, to_bytes}

-- The structure `ublksrv_ctrl_cmd` of the kernel, read from the start of the command field.
unfoldable pub decode : List ℕ → UblkCtrlCmd
decode xs = record {
  dev_id = word 4 xs;
  queue_id = word 2 (drop 4 xs);
  len = word 2 (drop 6 xs);
  addr = word 8 (drop 8 xs);
  data_word = word 8 (drop 16 xs);
  dev_path_len = word 2 (drop 24 xs);
  pad = word 2 (drop 26 xs);
  reserved = word 4 (drop 28 xs);
}

-- Each field is in the range of its type.
pub record IsCmd (c : UblkCtrlCmd) : Type 0 where
  pub dev_id_u32 : c.dev_id < 256 ^ 4
  pub queue_id_u16 : c.queue_id < 256 ^ 2
  pub len_u16 : c.len < 256 ^ 2
  pub addr_u64 : c.addr < 256 ^ 8
  pub data_u64 : c.data_word < 256 ^ 8
  pub dev_path_len_u16 : c.dev_path_len < 256 ^ 2
  pub pad_u16 : c.pad < 256 ^ 2
  pub reserved_u32 : c.reserved < 256 ^ 4

decode-cmd_bytes : (c : UblkCtrlCmd) (rest : List ℕ) → IsCmd c → decode (cmd_bytes c rest) ≡ c
unfolding decode cmd_bytes bytes
decode-cmd_bytes c rest v =
    rw
      (
        word-bytes 4 c.dev_id _ v.dev_id_u32,
        word-bytes 2 c.queue_id _ v.queue_id_u16,
        word-bytes 2 c.len _ v.len_u16,
        word-bytes 8 c.addr _ v.addr_u64,
        word-bytes 8 c.data_word _ v.data_u64,
        word-bytes 2 c.dev_path_len _ v.dev_path_len_u16,
        word-bytes 2 c.pad _ v.pad_u16,
        word-bytes 4 c.reserved _ v.reserved_u32,
      )
      refl

-- A command with its padding of 48 bytes fills the 80 bytes of the command field, the kernel reads
-- back every field of it, and the padding is what follows the 32 bytes of the structure.
pub decode-to_bytes :
    (e : UblkCtrlCmdExt)
    → IsCmd e.cmd
    → length e.padding ≡ 48
    → (decode (to_bytes e) ≡ e.cmd)
      × (length (to_bytes e) ≡ 80)
      × (drop 32 (to_bytes e) ≡ e.padding)
unfolding to_bytes cmd_bytes bytes
decode-to_bytes e v p = (decode-cmd_bytes e.cmd e.padding v, omega arith, refl)
