-- ===== src/Tocanonij/Job/Cut.antt =====
-- A job whose first write is cut short.
use cnijfilter.Common.{
  ℕ, ◌<◌, ◌≡◌, refl, ap, min, true, false, Option, some, List, ◌∷◌, ◌++◌, take, length, ◌==◌,
  is_zero, arith,
}
use cnijfilter.Text.{Text}
use cnijfilter.Pwg.PackBits.{Bytes}
use cnijfilter.Pwg.Device.{Device, Answer, taken}
use cnijfilter.Posix.{write_once, Source}
use cnijfilter.Cndata.{Layout}
use cnijfilter.Tocanonij.Options.{Opt, parse_options}
use cnijfilter.Tocanonij.Pages.{failed}
use cnijfilter.Tocanonij.Job.{
  start_1, start_2, end_job, allocate, ◌>>◌, Library, get_capability, send, output_set_time, job_id,
  start_job, configure, run,
}
use cnijfilter.Tocanonij.Job.Order.{Starts}

-- An output with memory for the buffers.
abbrev pub answering : List Answer → Bytes → Device
answering answers bytes = record { bytes = bytes; answers = answers; grant = λ n. true }

send_cut :
    (o : Option Bytes) (c out : Bytes) (k : ℕ) (more : List Answer)
    → o ≡ some c
    → k < length c
    → send o (answering (taken k ∷ more) out) ≡ (false, answering more (out ++ take k c))
unfolding send write_once
send_cut o c out k more e h =
    let m : min k (length c) ≡ k = omega (arith, h) in
    let f : (k == length c) ≡ false = ground (arith, h) in rw (e, m, f) refl

start_job_cut :
    (l : Library) (prot k : ℕ) (uuid : Text) (out c : Bytes) (more : List Answer)
    → (prot == 2) ≡ false
    → l.print_command (job_id prot) start_1 ≡ some c
    → k < length c
    → start_job l prot uuid (answering (taken k ∷ more) out)
      ≡ (false, answering more (out ++ take k c))
unfolding start_job output_set_time
start_job_cut l prot k uuid out c more h made short = rw h (
    ap
      (λ n.
        n
        >> send (l.print_command (job_id prot) start_2)
        >> send l.set_time_job
        >> send (l.print_command (job_id prot) end_job)
        >> allocate
        >> send (l.print_command (job_id prot) start_1))
      (send_cut (l.print_command (job_id prot) start_1) c out k more made short))

-- Where the printer's protocol is not 2 and the first write, that of the first start command, takes
-- but `k` bytes of it: the job fails, having written these and nothing more, and read nothing.
pub run_cut_start :
    (layout : Layout) (l : Library) (fuel k : ℕ) (opts : List Opt) (input : Source) (out c : Bytes)
    (more : List Answer)
    → Starts l opts
    → l.print_command (job_id (l.get_protocol (get_capability l (λ n. true)).1)) start_1 ≡ some c
    → k < length c
    → run layout l fuel opts (record { input = input; output = answering (taken k ∷ more) out })
      ≡ failed (record { input = input; output = answering more (out ++ take k c) })
unfolding run is_zero
run_cut_start layout l fuel k opts input out c more starts made h =
    let prot = l.get_protocol (get_capability l (λ n. true)).1 in
    let e =
      ap (λ n. n >> configure l (parse_options opts).settings (job_id prot))
        (start_job_cut l prot k (parse_options opts).uuid out c more starts.protocol made h) in
    let first = ap (λ r. r.0) e in
    rw (starts.loads, run, starts.checked, starts.code, first)
      (ap (λ r. failed (record { input = input; output = r.1 })) e)
