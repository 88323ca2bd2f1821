-- ===== src/Pwg/Output.antt =====
-- tocnpwg/src/main.c, `pwgRasterDump`, `OutputPWGPageData`, `isRotate` and `main`: the pages go to
-- standard output, each after its `CNDATA`.
pub mod Dump
pub mod Job
pub mod Chain
mod Tests
use cnijfilter.Common.{
  ℕ, zero, suc, ◌+◌, ◌%◌, ◌^◌, ◌*◌, Bool, true, false, Option, none, some, List, [], ◌∷◌, map, take,
  drop, length, if◌then◌else◌, pos,
}
use cnijfilter.Text.{Text, codes, same_text}
use cnijfilter.Pwg.PackBits.{Bytes}
use cnijfilter.Pwg.Device.{Answer, Device}
use cnijfilter.Posix.{wrote, write_eintr, write_error, write_once}
use cnijfilter.Cndata.{CnData, Layout, magic_number_for_cnijpwg}
use cnijfilter.Pwg.Raster.{Raster}
use cnijfilter.Pwg.Header.{FileHeader}
use cnijfilter.Pwg.Scale.{Double}
use cnijfilter.Pwg.Page.{Ended, done, failed, crashed}
use cnijfilter.Pwg.Create.{InPage, JobOptions, temp_open, create_page}
use cnijfilter.Tocanonij.Names.{to_lower}

-- DATA_BUF_SIZE, with `sizeof (char)`
abbrev pub data_buf_size : ℕ
data_buf_size = 1024 * 1

-- `do { write_bytes = write (1, p_current, read_bytes); ... } while (read_bytes > 0);`. A call
-- that is interrupted is made again. False stands for `goto onErr`, and for fuel that ran out.
unfoldable pub dump_chunk : ℕ → Device → Bytes → Bool × Device
dump_chunk zero out chunk = (false, out)
dump_chunk (suc fuel) out [] = (true, out)
dump_chunk (suc fuel) out (b ∷ chunk) = elim (write_once out (b ∷ chunk)).0 [
  | wrote n ↦ dump_chunk fuel (write_once out (b ∷ chunk)).1 (drop n (b ∷ chunk))
  | write_eintr ↦ dump_chunk fuel (write_once out (b ∷ chunk)).1 (b ∷ chunk)
  | write_error ↦ (false, (write_once out (b ∷ chunk)).1)
]

-- `while (1)` over the regular file, of which these bytes are still to be read. Each call for a
-- chunk uses up an answer of the device, or writes all it has.
unfoldable pub dump_loop : ℕ → Device → Bytes → Bool × Device
dump_loop zero out file = (false, out)
dump_loop (suc fuel) out [] = (true, out)
dump_loop (suc fuel) out (b ∷ file) =
    let chunk = take data_buf_size (b ∷ file) in
    let (ok, out') = dump_chunk (length out.answers + 2) out chunk in
    let later = dump_loop fuel out' (drop data_buf_size (b ∷ file)) in
    if ok then later else (false, out')

-- `pwgRasterDump`, from the start of the file, where `malloc` gives the buffer. Each round reads a
-- byte at least.
unfoldable pub raster_dump : Raster → Device → Bool × Device
raster_dump r out =
    let dumped = dump_loop (length r.device.bytes + 1) out r.device.bytes in
    if out.grant data_buf_size then dumped else (false, out)

-- `OutputPWGPageData`: the results of the write and of the dump are not looked at.
unfoldable pub output_page : Layout → Raster → ℕ → ℕ → Device → Device
output_page layout outras is_next_page page out =
    let c : CnData = record {
      magic_num = magic_number_for_cnijpwg;
      image_size = pos (length outras.device.bytes);
      next_page = is_next_page;
      page_num = page % 2 ^ 16;
    } in
    (raster_dump outras (write_once out (layout.print c)).1).1

-- `isRotate`: STR_BUF_SIZE bytes, of which the last one is cleared.
unfoldable pub is_rotate : Text → Bool
is_rotate option = same_text (map to_lower (take 255 option)) (codes "duplexnotumble")

-- What `getopt_long` finds on the command line, one option after the other.
pub data JobOption : Type 0 where
  version : JobOption
  printable_width : Text → JobOption
  printable_height : Text → JobOption
  duplexprint : Text → JobOption
  unknown : JobOption

-- The loop of `main` over the options. `atol` is that of C, where it is not negative.
unfoldable pub read_options : (Text → ℕ) → List JobOption → JobOptions → JobOptions
read_options atol [] o = o
read_options atol (version ∷ opts) o = read_options atol opts o
read_options atol (printable_width t ∷ opts) o =
    read_options atol opts (record o { printable_width = atol t })
read_options atol (printable_height t ∷ opts) o =
    read_options atol opts (record o { printable_height = atol t })
read_options atol (duplexprint t ∷ opts) o =
    read_options atol opts (record o { is_rotate = is_rotate t })
read_options atol (unknown ∷ opts) o = read_options atol opts o

-- How `main` ends: with result 0, with -1, or by undefined behaviour.
pub data Exit : Type 0 where
  finished : Device → Exit
  stopped : Device → Exit
  broken : Device → Exit

-- What a run of `main` needs of the world: the bytes of the sync word, the memory, and the answers
-- to the writes of the temporary file of each page (`file_answers`, `raw_answers`).
pub record World : Type 1 where
  pub double : Double
  pub layout : Layout
  pub header_layout : FileHeader → Bytes
  pub sync : Bytes
  pub grant : ℕ → Bool
  pub file_answers : ℕ → List Answer
  pub raw_answers : ℕ → List Answer

module _ (w : World) (o : JobOptions) where
  -- `InitPWGPageData` and `CreatePWGPageData` for a page.
  unfoldable pub make_page : ℕ → InPage → Ended
  make_page page p =
      elim (temp_open w.sync
        (record { bytes = []; answers = w.file_answers page; grant = w.grant })) [
          | none ↦ crashed
          | some r ↦ create_page w.double w.header_layout o (w.raw_answers page) page p r
        ]

  -- `if (isPWGExist) { OutputPWGPageData (...); ... }`
  unfoldable pub output_waiting : ℕ → ℕ → Option Raster → Device → Device
  output_waiting is_next_page page none out = out
  output_waiting is_next_page page (some outras) out =
      output_page w.layout outras is_next_page page out

  -- The loop over the headers, and what follows it; `outras` is the page that waits, if
  -- `isPWGExist`.
  unfoldable pub header_loop : ℕ → Option Raster → Device → List InPage → Exit
  header_loop page outras out [] = finished (output_waiting 0 page outras out)
  header_loop page outras out (p ∷ ps) = elim (make_page page p) [
    | done r ↦ header_loop (page + 1) (some r) (output_waiting 1 page outras out) ps
    | failed r ↦ stopped (output_waiting 1 page outras out)
    | crashed ↦ broken (output_waiting 1 page outras out)
  ]

unfoldable pub main : World → (Text → ℕ) → List JobOption → List InPage → Device → Exit
main w atol opts pages out =
    let none_given : JobOptions = record {
      printable_width = 0;
      printable_height = 0;
      is_rotate = false;
    } in
    header_loop w (read_options atol opts none_given) 1 none out pages
