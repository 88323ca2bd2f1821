-- ===== src/Lgmon/Response.antt =====
-- lgmon3/src/cnijlgmon3.c, `CNIF_GetResponse`: the status of the printer.
pub mod Laws
use cnijfilter.Common.{
  ℕ, zero, suc, ◌+◌, ◌*◌, Bool, true, false, not, ◌&&◌, ◌||◌, Option, none, some, List, [], ◌∷◌,
  ◌==◌, if◌then◌else◌, length, ℤ, pos, negsuc, is_zero, int_is,
}
use cnijfilter.Text.{Text, codes, same_text}
use cnijfilter.Pwg.PackBits.{Bytes}
use cnijfilter.Canonij.Table.{c_string}
use cnijfilter.Lgmon.{
  IfType, usb, net, net2, status_idle, status_processing, status_stopped, status_notready,
  status_canceling, Info, plain, coded, Key, lbm_printing, lbm_cant_comm_print, lbm_jam,
  lbm_cover_open, lbm_paper_not_set, lbm_busy, lbm_chk_printer, Session, say, is_negative,
  is_negsuc,
}

-- CN_READ_SIZE, CN_READ_SIZE_BIG
abbrev pub cn_read_size : ℕ
cn_read_size = 4096

abbrev pub cn_read_size_big : ℕ
cn_read_size_big = 1024 * 16

-- SVC_MAINTENANCE
abbrev pub svc_maintenance : Text
svc_maintenance = codes "application/vnd.cups-command"

-- What a call of `CNIF_Read` brings: its result, and the bytes that it read.
pub record Read : Type 0 where
  pub err : ℤ
  pub bytes : Bytes

-- What the printer library finds in the bytes.
pub record Status : Type 0 where
  pub err : ℤ
  pub status : ℕ
  pub detail : ℕ
  pub support_id : Text

-- The functions of the printer library: `CNCL_GetInfoResponse` (its result and the operation),
-- `CNCL_GetStatus`, and `CNCL_GetStatus2` and its form for maintenance, which leave a job id; and
-- the variable CONTENT_TYPE, which is there.
pub record Parser : Type 0 where
  pub get_info_response : Bytes → ℤ × ℕ
  pub get_status : Bytes → Status
  pub get_status2 : Bytes → ℕ → Status × Text
  pub get_status2_maintenance : Bytes → ℕ → Status × Text
  pub content_type : Text

-- How the loop that reads ends: with the bytes, with an error and whether nothing was read, with
-- no memory, or not within the answers.
pub data Fetched : Type 0 where
  fetched : Bytes → Fetched
  no_state : ℤ → Bool → Fetched
  no_memory : Fetched
  unanswered : Fetched

-- The loop for USB: on an overflow (-8) the buffer grows by CN_READ_SIZE; `i` is its size now.
unfoldable pub read_usb : (ℕ → Bool) → ℕ → List Read → Fetched
read_usb grant i [] = unanswered
read_usb grant i (a ∷ more) =
    let again = read_usb grant (i + 1) more in
    if is_zero a.err
    then fetched a.bytes
    else if is_negsuc a.err 7
    then (if grant ((i + 1) * cn_read_size) then again else no_memory)
    else no_state a.err (length a.bytes == 0)

-- The loop for a network, which reads once.
unfoldable pub read_net : List Read → Fetched
read_net [] = unanswered
read_net (a ∷ more) =
    if is_zero a.err then fetched a.bytes else no_state a.err (length a.bytes == 0)

unfoldable pub read_state : (ℕ → Bool) → IfType → List Read → Fetched
read_state grant usb reads = read_usb grant 1 reads
read_state grant net reads = read_net reads
read_state grant net2 reads = read_net reads

-- The message of a printer that stopped; `coded_default` is the test before the last one.
unfoldable pub say_detail : ℕ → Bool → Text → Session → Session
say_detail detail coded_default support_id s =
    if detail == 2
    then say (coded support_id lbm_jam) s
    else if detail == 3
    then say (coded support_id lbm_cover_open) s
    else if detail == 4
    then say (coded support_id lbm_paper_not_set) s
    else if detail == 6
    then say (plain lbm_busy) s
    else if coded_default
    then say (coded support_id lbm_chk_printer) s
    else s

-- `switch (status)`, its messages.
unfoldable pub say_status : Status → Bool → Session → Session
say_status x coded_default s =
    if x.status == status_idle || x.status == status_processing
    then say (plain lbm_printing) s
    else if x.status == status_stopped || x.status == status_notready
    then say_detail x.detail coded_default x.support_id s
    else s

-- CLSS_OK and CLSS_NOT_SUPPORT_CUSTOM (10) together with the status.
unfoldable pub combined : ℤ → ℕ → ℕ → ℕ → ℤ
combined err ok not_supp otherwise =
    if is_zero err then pos ok else if int_is err 10 then pos not_supp else pos otherwise

-- The answer of a printer of the newer protocol.
unfoldable pub interpret_status2 : Status × Text → Session → ℤ × Session
interpret_status2 (x, job_id) s =
    let s1 : Session = record s {
      job_id = job_id;
      is_printing = if is_zero x.err && not (length job_id == 0) then true else s.is_printing;
    } in
    let err =
      if x.status == status_idle
      then combined x.err 11 13 status_idle
      else if x.status == status_canceling
      then combined x.err 12 14 status_canceling
      else x.err in
    (err, say_status x true s1)

-- The status of a printer of the older protocol.
unfoldable pub interpret_status : Status → Session → ℤ × Session
interpret_status x s = if is_negative x.err then (pos 0, s) else (
  if x.status == status_idle
      then pos status_idle
      else if x.status == status_canceling
      then pos status_canceling
      else pos 4,
  say_status x (not (length x.support_id == 0)) s,
)

-- The answer of a printer of the older protocol. A result of the library other than -5 that is
-- negative gives 0, and so does an operation that is not known.
unfoldable pub interpret_response : Parser → Bytes → Session → ℤ × Session
interpret_response p bytes s =
    let (err, operation_id) = p.get_info_response bytes in
    if is_negative err && not (is_negsuc err 4)
    then (pos 0, s)
    else if operation_id == 8
    then (pos 1, s)
    else if operation_id == 22
    then (pos 2, s)
    else if operation_id == 10
    then (pos 3, s)
    else if operation_id == 14
    then interpret_status (p.get_status bytes) s
    else (pos 0, s)

-- For the newer protocol the bytes go through `strncat`, and so end before the first zero.
unfoldable pub interpret : Parser → IfType → Bytes → Session → ℤ × Session
interpret p usb bytes s = interpret_response p bytes s
interpret p net bytes s = interpret_response p bytes s
interpret p net2 bytes s =
    if same_text p.content_type svc_maintenance
    then interpret_status2 (p.get_status2_maintenance (c_string bytes) (length bytes)) s
    else interpret_status2 (p.get_status2 (c_string bytes) (length bytes)) s

-- The buffers that are allocated first.
unfoldable pub has_buffers : (ℕ → Bool) → Bool
has_buffers grant =
    grant 100 && (grant 64 && (grant cn_read_size && (grant cn_read_size_big && grant 9)))

-- `CNIF_GetResponse`: its result and the variables after it, or none where the answers run out.
unfoldable pub get_response :
    Parser → (ℕ → Bool) → IfType → List Read → Session → Option (ℤ × Session)
get_response p grant if_type reads s =
    if not (has_buffers grant) then some (negsuc 0, s) else elim (read_state grant if_type reads) [
      | fetched bytes ↦ some (interpret p if_type bytes s)
      | no_state err nothing ↦ some (err, if nothing then say (plain lbm_cant_comm_print) s else s)
      | no_memory ↦ some (negsuc 0, s)
      | unanswered ↦ none
    ]
