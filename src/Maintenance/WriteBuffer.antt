-- ===== src/Maintenance/WriteBuffer.antt =====
-- cmdtocanonij2/filter/cmdtocanonij.c, `write_buffer`: bytes go to standard output.
pub mod Ends
use cnijfilter.Common.{
  ℕ, zero, suc, ◌+◌, ◌-◌, ◌%◌, ◌^◌, Option, none, some, List, drop, length, ltb, if◌then◌else◌,
}
use cnijfilter.Pwg.PackBits.{Bytes}
use cnijfilter.Pwg.Device.{Device}
use cnijfilter.Posix.{WriteResult, wrote, write_eintr, write_error, write_once}

-- `writtenSize += w`, where `w` is -1 as a `size_t`: the test `w < 0` is never true.
abbrev pub add_failed : ℕ → ℕ
add_failed written = (written + (2 ^ 64 - 1)) % 2 ^ 64

-- The loop, with the rounds left.
unfoldable pub write_from : ℕ → Bytes → ℕ → Device → Option Device
write_from zero buffer written d = none
write_from (suc fuel) buffer written d =
    if ltb written (length buffer)
    then elim (write_once d (drop written buffer)).0 [
      | wrote n ↦ write_from fuel buffer (written + n) (write_once d (drop written buffer)).1
      | write_eintr ↦
          write_from fuel buffer (add_failed written) (write_once d (drop written buffer)).1
      | write_error ↦
          write_from fuel buffer (add_failed written) (write_once d (drop written buffer)).1
    ]
    else some d

-- `write_buffer`, which always gives PROC_SUCCEEDED: standard output after it. Each round uses up an
-- answer, or writes all that is left.
unfoldable pub write_buffer : Bytes → Device → Option Device
write_buffer buffer d = write_from (length d.answers + 2) buffer 0 d
