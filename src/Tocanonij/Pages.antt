-- ===== src/Tocanonij/Pages.antt =====
-- tocanonij/src/main.c, `main`, "Write Page Data": the loop over the pages.
pub mod Copy
pub mod Stream
pub mod Stuck
use cnijfilter.Common.{
  ℕ, zero, suc, ◌+◌, ◌-◌, min, Bool, true, false, not, Option, none, some, List, [], ◌∷◌, drop,
  length, ◌==◌, ℤ, pos, negsuc, if◌then◌else◌,
}
use cnijfilter.Text.{Text}
use cnijfilter.Pwg.PackBits.{Bytes}
use cnijfilter.Pwg.Device.{Device}
use cnijfilter.Posix.{
  WriteResult, wrote, write_eintr, write_error, write_once, Source, ReadResult, got, read_eintr,
  read_error, read_once,
}
use cnijfilter.Cndata.{CnData, Layout, magic_number_for_cnijpwg}

-- Standard input and standard output.
pub record Io : Type 0 where
  pub input : Source
  pub output : Device

-- How a loop ends: well, at a `goto onErr3`, or not within its fuel.
pub data Ending : Type 0 where
  done : Io → Ending
  failed : Io → Ending
  running : Io → Ending

-- `do { writeBytes = write (1, pCurrent, readBytes); ... } while (writeBytes > 0);`. The `continue`
-- after EINTR goes to the test, which fails. Each round that goes on takes a byte at least, so one
-- more than the length of the chunk is enough fuel.
pub write_chunk : ℕ → Device → Bytes → Bool × Device
write_chunk zero d chunk = (false, d)
write_chunk (suc fuel) d chunk = elim (write_once d chunk).0 [
  | wrote zero ↦ (true, (write_once d chunk).1)
  | wrote (suc n) ↦ write_chunk fuel (write_once d chunk).1 (drop (suc n) chunk)
  | write_eintr ↦ (true, (write_once d chunk).1)
  | write_error ↦ (false, (write_once d chunk).1)
]

-- `while (readSize)`: a read error other than EINTR leads to a write of SIZE_MAX bytes, which fails.
pub copy_image : ℕ → ℕ → ℕ → Io → Ending
copy_image fuel buf_size zero io = done io
copy_image zero buf_size (suc n) io = running io
copy_image (suc fuel) buf_size (suc n) io = elim (read_once io.input (min (suc n) buf_size)).0 [
  | got chunk ↦
      let (ok, output) = write_chunk (length chunk + 1) io.output chunk in
      let next : Io = record {
        input = (read_once io.input (min (suc n) buf_size)).1;
        output = output;
      } in
      elim ok [ true ↦ copy_image fuel buf_size (suc n - length chunk) next | false ↦ failed next ]
  | read_eintr ↦
      copy_image fuel buf_size (suc n)
        (record io { input = (read_once io.input (min (suc n) buf_size)).1 })
  | read_error ↦ failed (record io { input = (read_once io.input (min (suc n) buf_size)).1 })
]

-- The two functions of the printer library that the loop calls: the commands that they make for a
-- job, or an error.
pub record PageCommands : Type 0 where
  pub page_configuration : Bool → Option Bytes
  pub send_data : ℕ → Option Bytes

-- One page, after its `CNDATA` was read.
pub write_page : PageCommands → ℕ → ℕ → CnData → Io → Ending
write_page commands fuel buf_size data_ io = elim data_.image_size [
  | negsuc n ↦ failed io
  | pos read_size ↦ elim (commands.page_configuration (not (data_.next_page == 0))) [
    | none ↦ failed io
    | some command ↦
        let (r, output) = write_once io.output command in
        elim r [
          | wrote n ↦
              if n == length command
              then elim (commands.send_data read_size) [
                | none ↦ failed (record io { output = output })
                | some send ↦
                    copy_image fuel buf_size read_size
                      (record io { output = (write_once output send).1 })
              ]
              else failed (record io { output = output })
          | write_eintr ↦ failed (record io { output = output })
          | write_error ↦ failed (record io { output = output })
        ]
  ]
]

-- `while (1)`, with fuel for its rounds and those of the inner loop.
pub page_loop : Layout → PageCommands → ℕ → ℕ → Io → Ending
page_loop layout commands zero buf_size io = running io
page_loop layout commands (suc fuel) buf_size io =
    let io' : Io = record io { input = (read_once io.input layout.size).1 } in
    elim (read_once io.input layout.size).0 [
      | got [] ↦ done io'
      | got (b ∷ bytes) ↦
          let c = layout.parse (b ∷ bytes) in
          elim (c.magic_num == magic_number_for_cnijpwg) [
            | false ↦ failed io'
            | true ↦ elim (write_page commands fuel buf_size c io') [
              | done io'' ↦ page_loop layout commands fuel buf_size io''
              | failed io'' ↦ failed io''
              | running io'' ↦ running io''
            ]
          ]
      | read_eintr ↦ page_loop layout commands fuel buf_size io'
      | read_error ↦ failed io'
    ]
