-- ===== src/Lgmon/Monitor/Exit.antt =====
-- With which code the monitor ends.
use cnijfilter.Common.{
  refl, ℕ, ◌≡◌, ap, Bool, true, Bool-cases, inl, inr, Option, none, some, List, [], ◌∷◌, ◌++◌,
  if◌then◌else◌, append_assoc, ==_iff, ℤ, pos, negsuc, int_is,
}
use cnijfilter.Pwg.PackBits.{Bytes}
use cnijfilter.Lgmon.{IfType, usb, net, net2, Session, is_negative, status_idle}
use cnijfilter.Lgmon.Response.{Parser, get_response}
use cnijfilter.Lgmon.Run.{reset, close, Run, Turn, Step, passed, failed, waiting, catch, call}
use cnijfilter.Lgmon.Monitor.{
  note, then_do, wait_end_old, wait_end, do_job, MonitorEnd, exited, running, end_run, first_run,
  monitor,
}

-- Of a part that passed.
abbrev Holds : (Run → Type 0) → Step → Type 0
Holds P (passed r turns) = P r
Holds P (failed r) = Unit
Holds P (waiting r) = Unit

then_do-Holds :
    (P : Run → Type 0) (s : Step) (k : Run → List Turn → Step)
    → ((r : Run) (turns : List Turn) → Holds P (k r turns))
    → Holds P (then_do s k)
unfolding then_do
then_do-Holds P (passed r turns) k h = h r turns
then_do-Holds P (failed r) k h = tt
then_do-Holds P (waiting r) k h = tt

abbrev IsIdle : Run → Type 0
IsIdle r = r.err ≡ pos 1

idle_of : (err : ℤ) → int_is err status_idle ≡ true → err ≡ pos 1
unfolding int_is
idle_of (pos n) h = ap pos ((==_iff n 1).0 h)
idle_of (negsuc n) h = cc

-- The older protocols.
abbrev pub IsOld : IfType → Type 0
IsOld usb = Unit
IsOld net = Unit
IsOld net2 = ⊥

module _ (p : Parser) (grant : ℕ → Bool) (if_type : IfType) where
  wait_end_old-IsIdle :
      (turns : List Turn) (r : Run) → Holds IsIdle (wait_end_old p grant if_type turns r)
  unfolding wait_end_old note
  wait_end_old-IsIdle [] r = tt
  wait_end_old-IsIdle (u ∷ turns) r = elim (Bool-cases (catch u r).session.interrupt_sign) [
    | inl h ↦ rw (h, wait_end_old) tt
    | inr h ↦
        rw (h, wait_end_old)
          (cases (get_response p grant if_type u.reads (catch u r).session)
            (λ r'. wait_end_old-IsIdle turns r'))
  ]
    where
      cases :
          (o : Option (ℤ × Session))
          → ((r' : Run) → Holds IsIdle (wait_end_old p grant if_type turns r'))
          → Holds IsIdle (elim o as (λ x. Step) [
            | none ↦ waiting (catch u r)
            | some (err, s) ↦
                if is_negative err
                then failed (note s (negsuc 5) (catch u r))
                else if int_is err status_idle
                then passed (note s err (catch u r)) turns
                else wait_end_old p grant if_type turns (note s err (catch u r))
          ])
      cases none ih = tt
      cases (some (err, s)) ih = elim (Bool-cases (is_negative err)) [
        | inl h ↦ rw h tt
        | inr h ↦ elim (Bool-cases (int_is err status_idle)) [
          | inl k ↦ rw (h, k) (idle_of err k)
          | inr k ↦ rw (h, k) (ih (note s err (catch u r)))
        ]
      ]

  do_job-IsIdle :
      (copies : ℕ) (broken : Bool) (file : Bytes) (turns : List Turn) (r : Run)
      → IsOld if_type
      → Holds IsIdle (do_job p grant if_type copies broken file turns r)
  unfolding do_job
  do_job-IsIdle copies broken file turns r old = then_do-Holds IsIdle _ _ (λ r1 t1.
      then_do-Holds IsIdle _ _ (λ r2 t2. then_do-Holds IsIdle _ _ (λ r3 t3.
        then_do-Holds IsIdle _ _
          (λ r4 t4. then_do-Holds IsIdle _ _ (λ r5 t5. last if_type old t5 r5)))))
    where
      last :
          (t : IfType)
          → IsOld t
          → (ts : List Turn) (r5 : Run) → Holds IsIdle (wait_end p grant if_type t ts r5)
      last usb old ts r5 = unfold wait_end in wait_end_old-IsIdle ts r5
      last net old ts r5 = unfold wait_end in wait_end_old-IsIdle ts r5
      last net2 old ts r5 = absurd old

-- How a run ends, by how its job does: with code 1 where every part of the job passed; with a reset
-- and a close where a part failed, with code 1 in place of a negative result; it goes on where the job
-- does.
abbrev pub Coded : Step → MonitorEnd → Type 0
Coded (passed r turns) (exited code r') = (code ≡ pos 1) × (r'.calls ≡ r.calls ++ (close ∷ []))
Coded (passed r turns) (running r') = ⊥
Coded (failed r) (exited code r') =
    (code ≡ (if is_negative r.err then pos 1 else r.err))
    × (r'.calls ≡ r.calls ++ (reset ∷ (close ∷ [])))
Coded (failed r) (running r') = ⊥
Coded (waiting r) (exited code r') = ⊥
Coded (waiting r) (running r') = r' ≡ r

end_run-Coded : (s : Step) → Holds IsIdle s → Coded s (end_run s)
unfolding end_run call
end_run-Coded (passed r turns) h = (h, refl)
end_run-Coded (failed r) h = (refl, append_assoc r.calls (reset ∷ []) (close ∷ []))
end_run-Coded (waiting r) h = refl

-- For the older protocols, whatever happens: a run of the monitor whose job passes all its parts ends
-- with code 1, after a close; one where a part fails ends after a reset and a close, with the result
-- at that place, or 1 where it is negative; and a run goes on only where its job does.
pub monitor-Coded :
    (p : Parser) (grant : ℕ → Bool) (if_type : IfType) (copies : ℕ) (broken : Bool) (file : Bytes)
    (turns : List Turn)
    → IsOld if_type
    → Coded
        (do_job p grant if_type copies broken file turns first_run)
        (monitor p grant if_type copies broken file turns)
unfolding monitor
monitor-Coded p grant if_type copies broken file turns old =
    end_run-Coded _ (do_job-IsIdle p grant if_type copies broken file turns first_run old)
