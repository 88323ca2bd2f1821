-- ===== src/Lgmon/Run.antt =====
-- lgmon3/src/cnijlgmon3.c, `main`: what a run of the monitor keeps, and what it meets.
use cnijfilter.Common.{ℕ, Bool, List, [], ◌∷◌, ◌++◌, if◌then◌else◌, ℤ}
use cnijfilter.Pwg.PackBits.{Bytes}
use cnijfilter.Lgmon.{Session, sig_catch}
use cnijfilter.Lgmon.Response.{Read}

-- The calls of the interface that end or keep a job.
pub data Call : Type 0 where
  keep_session : Call
  cancel : Call
  reset : Call
  close : Call

-- The variables of `main` that its loops share; `sent` is what the printer took, as the driver of the
-- interface counts it.
pub record Run : Type 0 where
  pub session : Session
  pub sent : Bytes
  pub err : ℤ
  pub send_start : Bool
  pub calls : List Call

-- What a round of a loop meets: whether SIGTERM came before it, the seconds that passed since the
-- clock was set, the answers to the reads of `CNIF_GetResponse`, and the result of the driver's call
-- that the round makes, with the bytes that it transferred (no more than it was given).
pub record Turn : Type 0 where
  pub signal : Bool
  pub elapsed : ℕ
  pub reads : List Read
  pub result : ℤ
  pub transfered : ℕ

-- How a part of `main` ends: it goes on, `goto onErr`, or it is still in a loop after all turns.
pub data Step : Type 0 where
  passed : Run → List Turn → Step
  failed : Run → Step
  waiting : Run → Step

unfoldable pub catch : Turn → Run → Run
catch u r = record r { session = if u.signal then sig_catch r.session else r.session }

unfoldable pub call : Call → Run → Run
call c r = record r { calls = r.calls ++ (c ∷ []) }
