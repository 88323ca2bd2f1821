-- ===== src/Lgmon/Monitor.antt =====
-- lgmon3/src/cnijlgmon3.c, `main` from `CNIF_Open` on: the job of the monitor.
pub mod Exit
pub mod Sent
use cnijfilter.Common.{
  ℕ, Bool, true, false, not, ◌&&◌, ◌||◌, Option, none, some, List, [], ◌∷◌, leb, if◌then◌else◌, ℤ,
  pos, negsuc, is_zero, int_is,
}
use cnijfilter.Pwg.PackBits.{Bytes}
use cnijfilter.Lgmon.{
  IfType, usb, net, net2, status_idle, blank, plain, lbm_preparing, lbm_printing, Session, say,
  is_negative, is_negsuc,
}
use cnijfilter.Lgmon.Response.{Parser, get_response}
use cnijfilter.Lgmon.Run.{
  Call, keep_session, cancel, reset, close, Run, Turn, Step, passed, failed, waiting, catch, call,
}
use cnijfilter.Lgmon.Transfer.{clear_flags, send_copies}

-- A line on standard error, and a result.
unfoldable pub note : Session → ℤ → Run → Run
note s err r = record r { session = s; err = err }

-- The rest of `main` after a part that passed.
unfoldable pub then_do : Step → (Run → List Turn → Step) → Step
then_do (passed r turns) k = k r turns
then_do (failed r) k = failed r
then_do (waiting r) k = waiting r

-- CLSS_NOT_SUPPORT_CUSTOM, CLSS_NOT_SUPP_AND_IDLE or CLSS_NOT_SUPP_AND_CANCEL
unfoldable pub is_job_gone : ℤ → Bool
is_job_gone err = int_is err 10 || (int_is err 13 || int_is err 14)

module _ (p : Parser) (grant : ℕ → Bool) (if_type : IfType) where
  -- `do { err = CNIF_Open (...); ... } while (err < 0);`. A signal is not looked at.
  unfoldable pub open_device : List Turn → Run → Step
  open_device [] r = waiting r
  open_device (u ∷ turns) r =
      let r1 = catch u r in
      if is_negative u.result
      then open_device turns (note (say (plain lbm_preparing) r1.session) u.result r1)
      else passed (note r1.session u.result r1) turns

  -- "clear printer buffer"
  unfoldable pub clear_buffer : List Turn → Run → Step
  clear_buffer [] r = waiting r
  clear_buffer (u ∷ turns) r =
      let r1 = catch u r in
      elim (get_response p grant if_type u.reads r1.session) [
        | none ↦ waiting r1
        | some (err, s) ↦
            if is_negative err then failed (note s (negsuc 5) r1) else passed (note s err r1) turns
      ]

  -- "check printer status", before the job: CN_IVEC_STATUS_IDLE, CLSS_OK_AND_IDLE or
  -- CLSS_NOT_SUPP_AND_IDLE ends it.
  unfoldable pub wait_idle : List Turn → Run → Step
  wait_idle [] r = waiting r
  wait_idle (u ∷ turns) r =
      let r1 = catch u r in
      if r1.session.interrupt_sign
      then failed (note (say blank r1.session) r1.err r1)
      else elim (get_response p grant if_type u.reads r1.session) [
        | none ↦ waiting r1
        | some (err, s) ↦
            if is_negative err
            then failed (note s (negsuc 5) r1)
            else if int_is err status_idle || (int_is err 11 || int_is err 13)
            then passed (note s err r1) turns
            else wait_idle turns (note s err r1)
      ]

  -- "start session": busy (-8), or a result above 0, asks for the status and tries again.
  unfoldable pub start_session : List Turn → Run → Step
  start_session [] r = waiting r
  start_session (u ∷ turns) r =
      let r1 = catch u r in
      if r1.session.interrupt_sign
      then failed (note (say blank r1.session) r1.err r1)
      else if is_negative u.result && not (is_negsuc u.result 7)
      then failed (note r1.session (negsuc 4) r1)
      else if is_zero u.result
      then passed (note r1.session u.result r1) turns
      else elim (get_response p grant if_type u.reads r1.session) [
        | none ↦ waiting r1
        | some (err, s) ↦ start_session turns (note s err r1)
      ]

  -- "check printer status" after the data, for the newer protocol. The details of the response are
  -- never set, so its test for an error is never met.
  unfoldable pub wait_end_net2 : List Turn → Run → Step
  wait_end_net2 [] r = waiting r
  wait_end_net2 (u ∷ turns) r =
      let r0 = catch u r in
      let r1 = if leb 15 u.elapsed then call keep_session r0 else r0 in
      if r1.session.is_printing && r1.session.is_canceled
      then failed (clear_flags (note (say blank r1.session) u.result (call cancel r1)))
      else elim (get_response p grant if_type u.reads r1.session) [
        | none ↦ waiting r1
        | some (err, s) ↦
            if s.is_printing && is_job_gone err
            then passed (note (record s { is_printing = false }) err r1) turns
            else wait_end_net2 turns (note s err r1)
      ]

  -- The same for the older protocol.
  unfoldable pub wait_end_old : List Turn → Run → Step
  wait_end_old [] r = waiting r
  wait_end_old (u ∷ turns) r =
      let r1 = catch u r in
      if r1.session.interrupt_sign
      then failed (note (say blank r1.session) r1.err r1)
      else elim (get_response p grant if_type u.reads r1.session) [
        | none ↦ waiting r1
        | some (err, s) ↦
            if is_negative err
            then failed (note s (negsuc 5) r1)
            else if int_is err status_idle
            then passed (note s err r1) turns
            else wait_end_old turns (note s err r1)
      ]

  unfoldable pub wait_end : IfType → List Turn → Run → Step
  wait_end usb turns r = wait_end_old turns r
  wait_end net turns r = wait_end_old turns r
  wait_end net2 turns r = if r.send_start then wait_end_net2 turns r else passed r turns

  -- From `CNIF_Open` to the end of the last loop.
  unfoldable pub do_job : ℕ → Bool → Bytes → List Turn → Run → Step
  do_job copies broken file turns r = then_do (open_device turns r) (λ r1 t1.
      then_do (clear_buffer t1 r1) (λ r2 t2. then_do (wait_idle t2 r2) (λ r3 t3.
        then_do (start_session t3 r3) (λ r4 t4.
          then_do
            (send_copies p grant if_type copies true broken t4 file
              (note (say (plain lbm_printing) r4.session) r4.err r4))
            (λ r5 t5. wait_end if_type t5 r5)))))

-- How `main` ends: with a code, or not within the turns.
pub data MonitorEnd : Type 0 where
  exited : ℤ → Run → MonitorEnd
  running : Run → MonitorEnd

-- From `onErr` and `OK` on.
unfoldable pub end_run : Step → MonitorEnd
end_run (passed r turns) = exited r.err (call close (record r { session = say blank r.session }))
end_run (failed r) = exited (if is_negative r.err then pos 1 else r.err) (call close (call reset r))
end_run (waiting r) = running r

-- The variables as the program starts.
abbrev pub first_run : Run
first_run = record {
  session = record {
    is_printing = false;
    is_canceled = false;
    interrupt_sign = false;
    job_id = [];
    infos = [];
  };
  sent = [];
  err = pos 0;
  send_start = false;
  calls = [];
}

-- The run from `CNIF_Open` on.
unfoldable pub monitor : Parser → (ℕ → Bool) → IfType → ℕ → Bool → Bytes → List Turn → MonitorEnd
monitor p grant if_type copies broken file turns =
    end_run (do_job p grant if_type copies broken file turns first_run)
