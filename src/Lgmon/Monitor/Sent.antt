-- ===== src/Lgmon/Monitor/Sent.antt =====
-- What the printer has of the file, at any time of a run.
use cnijfilter.Common.{
  ℕ, zero, suc, ◌≡◌, refl, ap, ◌∙◌, subst, Bool, true, List, [], ◌∷◌, ◌++◌, append-nil, arith,
}
use cnijfilter.Pwg.PackBits.{Bytes}
use cnijfilter.Lgmon.{IfType, usb, net, net2, plain, lbm_printing, say}
use cnijfilter.Lgmon.Response.{Parser}
use cnijfilter.Lgmon.Run.{Run, Turn, Step, passed, failed, waiting, catch, call}
use cnijfilter.Lgmon.Transfer.{clear_flags, send_copies}
use cnijfilter.Lgmon.Transfer.Counted.{all_counted, left_of}
use cnijfilter.Lgmon.Transfer.Prefix.{IsPrefix, Sent, send_copies-Sent}
use cnijfilter.Lgmon.Monitor.{
  note, then_do, open_device, clear_buffer, wait_idle, start_session, wait_end_net2, wait_end_old,
  wait_end, do_job, MonitorEnd, exited, running, end_run, monitor,
}

-- The run of a step, however it ends.
abbrev RunOf : Step → Run
RunOf (passed r turns) = r
RunOf (failed r) = r
RunOf (waiting r) = r

module _ (p : Parser) (grant : ℕ → Bool) (if_type : IfType) where
  open_device_sent :
      (turns : List Turn) (r : Run) → (RunOf (open_device p grant if_type turns r)).sent ≡ r.sent
  unfolding open_device note catch
  open_device_sent [] r = refl
  open_device_sent (u ∷ turns) r = grind (arith, open_device_sent turns)

  clear_buffer_sent :
      (turns : List Turn) (r : Run) → (RunOf (clear_buffer p grant if_type turns r)).sent ≡ r.sent
  unfolding clear_buffer note catch
  clear_buffer_sent [] r = refl
  clear_buffer_sent (u ∷ turns) r = ground arith

  wait_idle_sent :
      (turns : List Turn) (r : Run) → (RunOf (wait_idle p grant if_type turns r)).sent ≡ r.sent
  unfolding wait_idle note catch
  wait_idle_sent [] r = refl
  wait_idle_sent (u ∷ turns) r = grind (arith, wait_idle_sent turns)

  start_session_sent :
      (turns : List Turn) (r : Run) → (RunOf (start_session p grant if_type turns r)).sent ≡ r.sent
  unfolding start_session note catch
  start_session_sent [] r = refl
  start_session_sent (u ∷ turns) r = grind (arith, start_session_sent turns)

  wait_end_net2_sent :
      (turns : List Turn) (r : Run) → (RunOf (wait_end_net2 p grant if_type turns r)).sent ≡ r.sent
  unfolding wait_end_net2 note catch call clear_flags
  wait_end_net2_sent [] r = refl
  wait_end_net2_sent (u ∷ turns) r = grind (arith, wait_end_net2_sent turns)

  wait_end_old_sent :
      (turns : List Turn) (r : Run) → (RunOf (wait_end_old p grant if_type turns r)).sent ≡ r.sent
  unfolding wait_end_old note catch
  wait_end_old_sent [] r = refl
  wait_end_old_sent (u ∷ turns) r = grind (arith, wait_end_old_sent turns)

  wait_end_sent :
      (t : IfType) (turns : List Turn) (r : Run)
      → (RunOf (wait_end p grant if_type t turns r)).sent ≡ r.sent
  unfolding wait_end
  wait_end_sent usb turns r = wait_end_old_sent turns r
  wait_end_sent net turns r = wait_end_old_sent turns r
  wait_end_sent net2 turns r = grind (arith, wait_end_net2_sent turns)

  open_device_left :
      (turns : List Turn) (r : Run)
      → all_counted if_type turns ≡ true
      → all_counted if_type (left_of (open_device p grant if_type turns r)) ≡ true
  unfolding open_device all_counted
  open_device_left [] r k = refl
  open_device_left (u ∷ turns) r k = grind (arith, open_device_left turns)

  clear_buffer_left :
      (turns : List Turn) (r : Run)
      → all_counted if_type turns ≡ true
      → all_counted if_type (left_of (clear_buffer p grant if_type turns r)) ≡ true
  unfolding clear_buffer all_counted
  clear_buffer_left [] r k = refl
  clear_buffer_left (u ∷ turns) r k = ground arith

  wait_idle_left :
      (turns : List Turn) (r : Run)
      → all_counted if_type turns ≡ true
      → all_counted if_type (left_of (wait_idle p grant if_type turns r)) ≡ true
  unfolding wait_idle all_counted
  wait_idle_left [] r k = refl
  wait_idle_left (u ∷ turns) r k = grind (arith, wait_idle_left turns)

  start_session_left :
      (turns : List Turn) (r : Run)
      → all_counted if_type turns ≡ true
      → all_counted if_type (left_of (start_session p grant if_type turns r)) ≡ true
  unfolding start_session all_counted
  start_session_left [] r k = refl
  start_session_left (u ∷ turns) r k = grind (arith, start_session_left turns)

  module _ (file : Bytes) where
    of_none : (r : Run) → r.sent ≡ [] → IsPrefix file r
    of_none r h = record { rest = file; whole = ap (λ b. b ++ file) h }

    of_all : (r : Run) → r.sent ≡ file → IsPrefix file r
    of_all r h = record { rest = []; whole = ap (λ b. b ++ []) h ∙ append-nil file }

    -- A part that sends nothing, before one that keeps to the file.
    then_do-IsPrefix :
        (s : Step) (k : Run → List Turn → Step)
        → (RunOf s).sent ≡ []
        → all_counted if_type (left_of s) ≡ true
        → ((r : Run) (turns : List Turn)
            → r.sent ≡ []
            → all_counted if_type turns ≡ true
            → IsPrefix file (RunOf (k r turns)))
        → IsPrefix file (RunOf (then_do s k))
    unfolding then_do
    then_do-IsPrefix (passed r turns) k e c h = h r turns e c
    then_do-IsPrefix (failed r) k e c h = of_none r e
    then_do-IsPrefix (waiting r) k e c h = of_none r e

    then_wait :
        (s : Step)
        → Sent file s
        → IsPrefix file (RunOf (then_do s (λ r turns. wait_end p grant if_type if_type turns r)))
    unfolding then_do
    then_wait (passed r turns) h = of_all _ (wait_end_sent if_type turns r ∙ h)
    then_wait (failed r) h = h
    then_wait (waiting r) h = h

    transfer_then_wait :
        (copies : ℕ) (broken : Bool) (turns : List Turn) (r : Run)
        → r.sent ≡ []
        → all_counted if_type turns ≡ true
        → IsPrefix file (
            RunOf (
              then_do
                (send_copies p grant if_type copies true broken turns file r)
                (λ r5 t5. wait_end p grant if_type if_type t5 r5)))
    unfolding then_do send_copies
    transfer_then_wait zero broken turns r e c =
        of_none (RunOf (wait_end p grant if_type if_type turns r))
          (wait_end_sent if_type turns r ∙ e)
    transfer_then_wait (suc copies) broken turns r e c =
        then_wait (send_copies p grant if_type (suc copies) true broken turns file r) (
          subst
            (λ a.
              Sent (a ++ file) (send_copies p grant if_type (suc copies) true broken turns file r))
            e (send_copies-Sent p grant if_type copies broken turns file r c))

    do_job-IsPrefix :
        (copies : ℕ) (broken : Bool) (turns : List Turn) (r : Run)
        → r.sent ≡ []
        → all_counted if_type turns ≡ true
        → IsPrefix file (RunOf (do_job p grant if_type copies broken file turns r))
    unfolding do_job note
    do_job-IsPrefix copies broken turns r e c =
        then_do-IsPrefix _ _ (open_device_sent turns r ∙ e) (open_device_left turns r c)
          (λ r1 t1 e1 c1.
            then_do-IsPrefix _ _ (clear_buffer_sent t1 r1 ∙ e1) (clear_buffer_left t1 r1 c1)
              (λ r2 t2 e2 c2.
                then_do-IsPrefix _ _ (wait_idle_sent t2 r2 ∙ e2) (wait_idle_left t2 r2 c2)
                  (λ r3 t3 e3 c3.
                    then_do-IsPrefix _ _ (start_session_sent t3 r3 ∙ e3)
                      (start_session_left t3 r3 c3)
                      (λ r4 t4 e4 c4.
                        transfer_then_wait copies broken t4
                          (note (say (plain lbm_printing) r4.session) r4.err r4) e4 c4))))

-- What an outcome leaves.
abbrev pub Left : Bytes → MonitorEnd → Type 0
Left file (exited code r) = IsPrefix file r
Left file (running r) = IsPrefix file r

end_run-Left : (file : Bytes) (s : Step) → IsPrefix file (RunOf s) → Left file (end_run s)
unfolding end_run call
end_run-Left file (passed r turns) h = record { rest = h.rest; whole = h.whole }
end_run-Left file (failed r) h = record { rest = h.rest; whole = h.whole }
end_run-Left file (waiting r) h = h

-- In any run of the monitor in which no call over USB has the result of a time-out, however its calls
-- are answered otherwise, whenever signals come, however it ends and while it goes on: what the
-- printer has taken, as the driver of the interface counts it, is the beginning of the file, and
-- nothing else.
pub monitor-Left :
    (p : Parser) (grant : ℕ → Bool) (if_type : IfType) (copies : ℕ) (broken : Bool) (file : Bytes)
    (turns : List Turn)
    → all_counted if_type turns ≡ true
    → Left file (monitor p grant if_type copies broken file turns)
unfolding monitor
monitor-Left p grant if_type copies broken file turns c =
    end_run-Left file _ (do_job-IsPrefix p grant if_type file copies broken turns _ refl c)
