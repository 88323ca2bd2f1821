-- ===== src/Tocanonij/Job/Order.antt =====
-- The order of what a whole job writes, and what it does where it may not start.
use cnijfilter.Common.{
  ℕ, ◌+◌, ◌<◌, ◌≡◌, refl, sym, ap, ◌∙◌, subst, Bool, true, false, Option, some, List, [], ◌∷◌, ◌++◌,
  All, length, append_assoc, ◌==◌, ==_iff, pos, is_zero, arith,
}
use cnijfilter.Text.{Text}
use cnijfilter.Pwg.PackBits.{Bytes}
use cnijfilter.Pwg.Device.{Device, Answer}
use cnijfilter.Posix.{write_once, ReadAnswer, Source}
use cnijfilter.Cndata.{Layout}
use cnijfilter.Tocanonij.Options.{Settings, check_settings, Opt, parse_options}
use cnijfilter.Tocanonij.Pages.{Io, Ending, done, page_loop}
use cnijfilter.Tocanonij.Pages.Copy.{IsSteady}
use cnijfilter.Tocanonij.Pages.Stream.{Page, stream, wrapped, making, Wrapped, page_loop-stream}
use cnijfilter.Tocanonij.Job.{
  start_1, start_2, end_job, Library, cn_bufsize, get_capability, send, ◌>>◌, output_set_time,
  allocate, job_id, start_job, send_unchecked, configure, finish, run,
}

-- The commands that the library makes for a job with these settings.
pub record Makes (l : Library) (job : Text) (s : Settings) : Type 0 where
  pub start_one : Bytes
  pub start_two : Bytes
  pub time : Bytes
  pub end_of_job : Bytes
  pub xml : Bytes
  pub configuration : Bytes
  pub page_configuration : Bool → Bytes
  pub send_data : ℕ → Bytes
  pub makes_start_one : l.print_command job start_1 ≡ some start_one
  pub makes_start_two : l.print_command job start_2 ≡ some start_two
  pub makes_time : l.set_time_job ≡ some time
  pub makes_end : l.print_command job end_job ≡ some end_of_job
  pub has_xml : l.capability ≡ some xml
  pub makes_configuration : l.set_configuration s job xml ≡ some configuration
  pub makes_pages : l.pages job ≡ making page_configuration send_data

-- An output that takes what it gets, with memory for the buffers.
abbrev pub quiet : Bytes → Device
quiet bytes = record { bytes = bytes; answers = []; grant = λ n. true }

send-quiet :
    (o : Option Bytes) (c out : Bytes) → o ≡ some c → send o (quiet out) ≡ (true, quiet (out ++ c))
unfolding send write_once
send-quiet o c out e = rw (e, (==_iff (length c) (length c)).1 refl) refl

send_unchecked-quiet :
    (o : Option Bytes) (c out : Bytes)
    → o ≡ some c
    → send_unchecked o (quiet out) ≡ (true, quiet (out ++ c))
unfolding send_unchecked write_once
send_unchecked-quiet o c out e = rw e refl

send_unchecked-all :
    (answers : List Answer) (out : Bytes) (grant : ℕ → Bool) (o : Option Bytes) (c : Bytes)
    → answers ≡ []
    → o ≡ some c
    → ((send_unchecked o (record { bytes = out; answers = answers; grant = grant })).0 ≡ true)
      × ((send_unchecked o (record { bytes = out; answers = answers; grant = grant })).1.bytes
          ≡ out ++ c)
unfolding send_unchecked write_once
send_unchecked-all [] out grant o c h e = rw e (refl, refl)
send_unchecked-all (a ∷ answers) out grant o c h e = cc

-- A command after steps that went well.
send-next :
    (m : Bool × Device) (o : Option Bytes) (c out : Bytes)
    → m ≡ (true, quiet out)
    → o ≡ some c
    → (m >> send o) ≡ (true, quiet (out ++ c))
send-next m o c out e f = ap (λ n. n >> send o) e ∙ send-quiet o c out f

module _ (l : Library) (job : Text) (s : Settings) (m : Makes l job s) where
  -- The job that sets the clock.
  unfoldable pub time_job : Bytes → Bytes
  time_job out = (((out ++ m.start_one) ++ m.start_two) ++ m.time) ++ m.end_of_job

  output_set_time-quiet :
      (out : Bytes) → output_set_time l job (quiet out) ≡ (true, quiet (time_job out))
  unfolding output_set_time time_job
  output_set_time-quiet out =
      send-next
        (send (l.print_command job start_1) (quiet out)
          >> send (l.print_command job start_2)
          >> send l.set_time_job)
        (l.print_command job end_job) m.end_of_job _
        (send-next
          (send (l.print_command job start_1) (quiet out) >> send (l.print_command job start_2))
          l.set_time_job m.time _
          (send-next (send (l.print_command job start_1) (quiet out)) (l.print_command job start_2)
            m.start_two _
            (send-quiet (l.print_command job start_1) m.start_one out m.makes_start_one)
            m.makes_start_two)
          m.makes_time)
        m.makes_end

  configure-quiet :
      (out : Bytes) → configure l s job (quiet out) ≡ (true, quiet (out ++ m.configuration))
  unfolding configure
  configure-quiet out = rw m.has_xml (send_unchecked-quiet _ _ out m.makes_configuration)

start_job-quiet :
    (l : Library) (prot : ℕ) (uuid : Text) (s : Settings) (m : Makes l (job_id prot) s)
    (out : Bytes)
    → (prot == 2) ≡ false
    → start_job l prot uuid (quiet out)
      ≡ (true, quiet (time_job l (job_id prot) s m out ++ m.start_one))
unfolding start_job allocate
start_job-quiet l prot uuid s m out h = rw h (
    send-next (output_set_time l (job_id prot) (quiet out) >> allocate)
      (l.print_command (job_id prot) start_1) m.start_one (time_job l (job_id prot) s m out)
      (ap (λ n. n >> allocate) (output_set_time-quiet l (job_id prot) s m out)) m.makes_start_one)

-- How the whole job ends on a stream of pages.
pub record Printed (l : Library) (job : Text) (s : Settings) (m : Makes l job s) (out : Bytes)
    (ps : List Page) (e : Ending) : Type 0 where
  pub end : Io
  pub is_done : e ≡ done end
  pub read_up : end.input.bytes ≡ []
  pub written :
      end.output.bytes ≡ out ++ (wrapped m.page_configuration m.send_data ps ++ m.end_of_job)

finish-Printed :
    (layout : Layout) (l : Library) (job : Text) (s : Settings) (m : Makes l job s) (fuel : ℕ)
    (answers : List ReadAnswer) (ps : List Page) (out : Bytes)
    → All (IsSteady layout.size) answers
    → length (stream layout ps) + length answers < fuel
    → Printed l job s m out ps (
        finish layout l job fuel (record {
          input = record { bytes = stream layout ps; answers = answers };
          output = quiet out;
        }))
unfolding finish
finish-Printed layout l job s m fuel answers ps out steady enough =
    rw (loop, finish, sent.0)
      (record {
        end = record w.end {
          output = (send_unchecked (l.print_command job end_job) w.end.output).1;
        };
        is_done = refl;
        read_up = w.read_up;
        written =
            sent.1
            ∙ ap (λ b. b ++ m.end_of_job) w.written
            ∙ append_assoc out (wrapped m.page_configuration m.send_data ps) m.end_of_job;
      })
  where
    w : Wrapped layout m.page_configuration m.send_data cn_bufsize out ps (
        page_loop layout (making m.page_configuration m.send_data) fuel cn_bufsize (record {
          input = record { bytes = stream layout ps; answers = answers };
          output = quiet out;
        }))
    w =
        page_loop-stream layout m.page_configuration m.send_data cn_bufsize (λ n. true) fuel answers
          ps out (omega arith) steady enough

    loop :
        page_loop layout (l.pages job) fuel cn_bufsize (record {
          input = record { bytes = stream layout ps; answers = answers };
          output = quiet out;
        })
        ≡ done w.end
    loop =
        ap
          (λ c. page_loop layout c fuel cn_bufsize (record {
            input = record { bytes = stream layout ps; answers = answers };
            output = quiet out;
          }))
          m.makes_pages
        ∙ w.is_done

    sent :
        ((send_unchecked (l.print_command job end_job) w.end.output).0 ≡ true)
        × ((send_unchecked (l.print_command job end_job) w.end.output).1.bytes
            ≡ w.end.output.bytes ++ m.end_of_job)
    sent =
        send_unchecked-all w.end.output.answers w.end.output.bytes w.end.output.grant
          (l.print_command job end_job) m.end_of_job w.quiet m.makes_end

-- What makes the job start: the library is there, every setting has a number, the device says what
-- it is, and its protocol is not 2.
pub record Starts (l : Library) (opts : List Opt) : Type 0 where
  pub loads : l.loads (parse_options opts).lib_path ≡ true
  pub checked : check_settings (parse_options opts).settings ≡ pos 0
  pub code : (get_capability l (λ n. true)).0 ≡ pos 1
  pub protocol : (l.get_protocol (get_capability l (λ n. true)).1 == 2) ≡ false

run-finish :
    (layout : Layout) (l : Library) (fuel : ℕ) (opts : List Opt) (input : Source) (out out' : Bytes)
    → Starts l opts
    → (start_job l
          (l.get_protocol (get_capability l (λ n. true)).1)
          (parse_options opts).uuid
          (quiet out)
        >> configure l
            (parse_options opts).settings
            (job_id (l.get_protocol (get_capability l (λ n. true)).1)))
      ≡ (true, quiet out')
    → run layout l fuel opts (record { input = input; output = quiet out })
      ≡ finish layout l
          (job_id (l.get_protocol (get_capability l (λ n. true)).1))
          fuel
          (record { input = input; output = quiet out' })
unfolding run is_zero
run-finish layout l fuel opts input out out' starts e =
    let first = ap (λ r. r.0) e in
    rw (starts.loads, run, starts.checked, starts.code, first)
      (ap
        (λ r.
          finish layout l (job_id (l.get_protocol (get_capability l (λ n. true)).1)) fuel
            (record { input = input; output = r.1 }))
        e)

-- A whole job with a printer whose protocol is not 2, on an output that takes what it gets and an
-- input that offers a whole `CNDATA` at least at each read, or is interrupted: with so much fuel it
-- ends with result 0, has read all its input, and has written the job that sets the clock (two
-- starts, the time, the end), the start of the job, its configuration, the pages with their
-- commands, and the end of the job, in this order.
pub run-Printed :
    (layout : Layout) (l : Library) (fuel : ℕ) (opts : List Opt)
    (m : Makes l
      (job_id (l.get_protocol (get_capability l (λ n. true)).1))
      (parse_options opts).settings)
    (answers : List ReadAnswer) (ps : List Page) (out : Bytes)
    → Starts l opts
    → All (IsSteady layout.size) answers
    → length (stream layout ps) + length answers < fuel
    → Printed l
        (job_id (l.get_protocol (get_capability l (λ n. true)).1))
        (parse_options opts).settings
        m
        (((((((out ++ m.start_one) ++ m.start_two) ++ m.time) ++ m.end_of_job) ++ m.start_one)
          ++ m.configuration))
        ps
        (run layout l fuel opts (record {
          input = record { bytes = stream layout ps; answers = answers };
          output = quiet out;
        }))
unfolding time_job
run-Printed layout l fuel opts m answers ps out starts steady enough =
    subst (Printed l job s m _ ps)
      (sym (
        run-finish layout l fuel opts _ out _ starts (
          ap (λ n. n >> configure l s job)
            (start_job-quiet l (l.get_protocol (get_capability l (λ n. true)).1)
              (parse_options opts).uuid s m out starts.protocol)
          ∙ configure-quiet l job s m _)))
      (finish-Printed layout l job s m fuel answers ps _ steady enough)
  where
    job : Text
    job = job_id (l.get_protocol (get_capability l (λ n. true)).1)

    s : Settings
    s = (parse_options opts).settings
