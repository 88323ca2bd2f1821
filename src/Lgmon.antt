-- ===== src/Lgmon.antt =====
-- lgmon3/src/cnijlgmon3.c: the monitor that sends a job to the printer and follows its status.
pub mod Response
pub mod Run
pub mod Transfer
pub mod Monitor
mod Tests
use cnijfilter.Common.{
  ℕ, zero, suc, ◌+◌, ◌*◌, Bool, true, false, List, [], ◌∷◌, ◌++◌, ◌==◌, if◌then◌else◌, ℤ, pos,
  negsuc,
}
use cnijfilter.Text.{Text, codes, same_text}
use cnijfilter.Pwg.PackBits.{Bytes}

-- `CNIF_INFO.ifType`
pub data IfType : Type 0 where
  usb : IfType
  net : IfType
  net2 : IfType

-- CN_IVEC_STATUS_IDLE, CN_IVEC_STATUS_PROCESSING, CN_IVEC_STATUS_STOPPED,
-- CN_IVEC_STATUS_NOTREADY, CN_IVEC_STATUS_CANCELING
abbrev pub status_idle : ℕ
status_idle = 1

abbrev pub status_processing : ℕ
status_processing = 2

abbrev pub status_stopped : ℕ
status_stopped = 3

abbrev pub status_notready : ℕ
status_notready = 4

abbrev pub status_canceling : ℕ
status_canceling = 6

-- The texts of the messages on standard error, by their keys.
pub data Key : Type 0 where
  lbm_preparing : Key
  lbm_printing : Key
  lbm_cant_comm_print : Key
  lbm_jam : Key
  lbm_cover_open : Key
  lbm_paper_not_set : Key
  lbm_busy : Key
  lbm_chk_printer : Key

-- A line on standard error: empty, or a text behind the support code, which may be empty.
pub data Info : Type 0 where
  blank : Info
  plain : Key → Info
  coded : Text → Key → Info

-- The variables of the file that outlive a call, with the lines so far.
pub record Session : Type 0 where
  pub is_printing : Bool
  pub is_canceled : Bool
  pub interrupt_sign : Bool
  pub job_id : Text
  pub infos : List Info

unfoldable pub say : Info → Session → Session
say i s = record s { infos = s.infos ++ (i ∷ []) }

-- `CNIF_SigCatch`
unfoldable pub sig_catch : Session → Session
sig_catch s = record s { interrupt_sign = true; is_canceled = true }

-- Tests of `int`.
unfoldable pub is_negative : ℤ → Bool
is_negative (pos n) = false
is_negative (negsuc n) = true

-- `err == - (n + 1)`
unfoldable pub is_negsuc : ℤ → ℕ → Bool
is_negsuc (pos m) n = false
is_negsuc (negsuc m) n = m == n

-- What `main` does for its arguments.
pub data Task : Type 0 where
  discover : Task
  installer_usb : Task
  installer_net : Task
  print : ℕ → Task
  task_error : Task

-- `switch (argc)`: `argv_1` and `copies` are used where they are there. `strncmp` with the size of
-- the constant compares its zero too.
unfoldable pub task_of : ℕ → Text → ℕ → Task
task_of argc argv_1 copies =
    if argc == 1
    then discover
    else if argc == 2
    then (if same_text (codes "--installer_usb") argv_1
        then installer_usb
        else if same_text (codes "--installer_net") argv_1
        then installer_net
        else task_error)
    else if argc == 5
    then print copies
    else task_error

-- `if (if_info.ifType != CNIF_TYPE_USB && prot == 2) if_info.ifType = CNIF_TYPE_NET2;`
unfoldable pub type_of_protocol : IfType → ℤ → IfType
type_of_protocol usb prot = usb
type_of_protocol net prot = elim prot [ pos n ↦ if n == 2 then net2 else net | negsuc n ↦ net ]
type_of_protocol net2 prot = net2
