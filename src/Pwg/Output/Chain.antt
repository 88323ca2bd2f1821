-- ===== src/Pwg/Output/Chain.antt =====
-- tocnpwg's output is tocanonij's input: the two filters of a job together.
use cnijfilter.Common.{ℕ, ◌+◌, ◌<◌, ◌≡◌, Bool, true, none, List, [], length, All}
use cnijfilter.Pwg.PackBits.{Bytes}
use cnijfilter.Pwg.Device.{Device}
use cnijfilter.Posix.{ReadAnswer}
use cnijfilter.Pwg.Raster.{Raster}
use cnijfilter.Pwg.Create.{InPage, JobOptions}
use cnijfilter.Pwg.Output.{data_buf_size, World, finished, header_loop}
use cnijfilter.Pwg.Output.Job.{output, closed, Made, header_loop-stream}
use cnijfilter.Tocanonij.Pages.{page_loop}
use cnijfilter.Tocanonij.Pages.Copy.{IsSteady}
use cnijfilter.Tocanonij.Pages.Stream.{making, stream, Wrapped, page_loop-stream}

-- Where tocnpwg makes every page, `malloc` grants the buffer of its dump, the outputs of both filters
-- take every byte, and tocanonij's library makes every command of a page: tocnpwg's loop finishes,
-- and tocanonij, which reads what it wrote in pieces that hold a `CNDATA` whole, whatever interrupts
-- its reads, and with fuel for the bytes and for the answers, reads it up and sends each page whole,
-- in order, between its commands.
pub page_loop-header_loop :
    (w : World) (o : JobOptions) (grant grant' : ℕ → Bool) (config : Bool → Bytes)
    (send : ℕ → Bytes) (buf fuel : ℕ) (answers : List ReadAnswer) (ps : List InPage)
    (rs : List Raster) (out : Bytes)
    → grant data_buf_size ≡ true
    → Made w o 1 ps rs
    → 0 < buf
    → All (IsSteady w.layout.size) answers
    → length (stream w.layout (closed 2 rs)) + length answers < fuel
    → (d : Device) × (header_loop w o 1 none (output grant []) ps ≡ finished d)
      × Wrapped w.layout config send buf out (closed 2 rs) (
          page_loop w.layout (making config send) fuel buf (record {
            input = record { bytes = d.bytes; answers = answers };
            output = output grant' out;
          }))
page_loop-header_loop w o grant grant' config send buf fuel answers ps rs out g m pb s h = (
  output grant (stream w.layout (closed 2 rs)),
  header_loop-stream w o grant g 1 ps rs [] m,
  page_loop-stream w.layout config send buf grant' fuel answers (closed 2 rs) out pb s h,
)
