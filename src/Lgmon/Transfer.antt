-- ===== src/Lgmon/Transfer.antt =====
-- lgmon3/src/cnijlgmon3.c, "TransferData" of `main`: the file goes to the printer.
pub mod Counted
pub mod Prefix
pub mod Whole
use cnijfilter.Common.{
  ℕ, zero, suc, ◌+◌, Bool, true, false, not, ◌&&◌, ◌||◌, Option, none, some, List, [], ◌∷◌, ◌++◌,
  ltb, leb, ◌==◌, min, if◌then◌else◌, take, drop, length, ℤ, pos, negsuc, int_is,
}
use cnijfilter.Pwg.PackBits.{Bytes}
use cnijfilter.Lgmon.{
  IfType, usb, net, net2, blank, plain, lbm_cant_comm_print, Session, say, is_negative, is_negsuc,
}
use cnijfilter.Lgmon.Response.{Parser, get_response}
use cnijfilter.Lgmon.Run.{cancel, Run, Turn, Step, passed, failed, waiting, catch, call}

-- CN_WRITE_SIZE
abbrev pub cn_write_size : ℕ
cn_write_size = 4096

-- The status says that the printer cancels: CN_IVEC_STATUS_CANCELING, CLSS_OK_AND_CANCEL,
-- CLSS_NOT_SUPP_AND_CANCEL.
unfoldable pub is_canceling : ℤ → Bool
is_canceling err = int_is err 6 || (int_is err 12 || int_is err 14)

-- `if_info.ifType == CNIF_TYPE_NET2`
unfoldable pub is_net2 : IfType → Bool
is_net2 usb = false
is_net2 net = false
is_net2 net2 = true

-- lgmon3/src/cnijcomif.c, `CNIF_Write`: its result and the count that it reports, for the size of the
-- buffer. Over USB a time-out (-7) becomes a success, and one that transferred all the bytes reports
-- none.
unfoldable pub cnif_write : IfType → Turn → ℕ → ℤ × ℕ
cnif_write usb u size =
    let n = min u.transfered size in
    if is_negsuc u.result 6 then (pos 0, if n == size then 0 else n) else (u.result, n)
cnif_write net u size = (u.result, min u.transfered size)
cnif_write net2 u size = (u.result, min u.transfered size)

-- `isPrinting = isCanceled = CNMPU2_FALSE`
unfoldable pub clear_flags : Run → Run
clear_flags r = record r { session = record r.session { is_printing = false; is_canceled = false } }

-- A cancelled job: `CNIF_Cancel`, the empty line, and CN_LGMON_OK.
unfoldable pub cancel_job : Run → Run
cancel_job r = record (call cancel r) { session = say blank r.session; err = pos 0 }

-- After a write that went well, where the interrupt sign is set: the run ends, or none.
unfoldable pub interrupted_run : IfType → Run → Option Run
interrupted_run net r = some (cancel_job r)
interrupted_run usb r =
    if r.session.is_canceled
    then some (if r.session.is_printing then clear_flags (cancel_job r) else r)
    else none
interrupted_run net2 r =
    if r.session.is_canceled
    then some (if r.session.is_printing then clear_flags (cancel_job r) else r)
    else none

-- How a round of the loop that writes ends: with another round, with `goto onErr`, or not within the
-- answers.
pub data WriteRound : Type 0 where
  again : Run → WriteRound
  stop : Run → WriteRound
  stuck : Run → WriteRound

module _ (p : Parser) (grant : ℕ → Bool) (if_type : IfType) where
  -- `if (past_sec >= 4) { ... }`; none where the answers run out.
  unfoldable pub note_status : Turn → Run → Option Run
  note_status u r =
      if leb 4 u.elapsed
      then elim (get_response p grant if_type u.reads r.session) [
        | none ↦ none
        | some (err, s) ↦ some (record r {
          err = err;
          session =
              if is_canceling err
              then record s { interrupt_sign = true; is_canceled = true }
              else s;
        })
      ]
      else some r

  -- A write of the newer protocol that failed is made again, if the job is interrupted or the
  -- result is CN_NET3_SEND_TIMEOUT.
  unfoldable pub is_again : ℤ → Run → Bool
  is_again result r = is_net2 if_type && (r.session.interrupt_sign || is_negsuc result 8)

  -- A round of the loop, from the write on.
  unfoldable pub write_step : Turn → Bytes → Run → WriteRound
  write_step u chunk r1 =
      let err = (cnif_write if_type u (length chunk)).0 in
      let r2 : Run = record r1 { err = err; sent = r1.sent ++ take u.transfered chunk } in
      let r3 : Run = record r2 { send_start = true } in
      if is_negative err
      then (if is_again err r2
          then again r2
          else stop
              (record r2 { session = say (plain lbm_cant_comm_print) r2.session; err = negsuc 6 }))
      else if r3.session.interrupt_sign
      then elim (interrupted_run if_type r3) [ some r4 ↦ stop r4 | none ↦ again r3 ]
      else again r3

  unfoldable pub round : Turn → Bytes → Run → WriteRound
  round u chunk r = elim (note_status u (catch u r)) [
    | none ↦ stuck (catch u r)
    | some r1 ↦ write_step u chunk r1
  ]

  -- `for ( ; readed_data != 0; readed_data -= transfered_data)`, with what is left of the chunk.
  unfoldable pub send_chunk : List Turn → Bytes → Run → Step
  send_chunk turns [] r = passed r turns
  send_chunk [] (b ∷ chunk) r = waiting r
  send_chunk (u ∷ turns) (b ∷ chunk) r = elim (round u (b ∷ chunk) r) [
    | again r' ↦
        send_chunk turns (drop (cnif_write if_type u (length (b ∷ chunk))).1 (b ∷ chunk)) r'
    | stop r' ↦ failed r'
    | stuck r' ↦ waiting r'
  ]

  -- `while (sign)`, with the chunk that was read and the rest of the file; `broken` is a file that
  -- ends with a read error. Each round takes a byte of the file, or ends the loop.
  unfoldable pub send_file : ℕ → Bool → List Turn → Bytes → Bytes → Run → Step
  send_file zero broken turns chunk file r = waiting r
  send_file (suc fuel) broken turns chunk file r =
      let is_short = ltb (length chunk) cn_write_size in
      if is_short && broken
      then failed (record r { err = negsuc 65533 })
      else elim (send_chunk turns chunk r) [
        | failed r' ↦ failed r'
        | waiting r' ↦ waiting r'
        | passed r' turns' ↦
            if is_short
            then passed r' turns'
            else send_file fuel broken turns' (take cn_write_size file) (drop cn_write_size file) r'
      ]

  -- `while (copies > 0)`: `sign` stays 0 after the first copy.
  unfoldable pub send_copies : ℕ → Bool → Bool → List Turn → Bytes → Run → Step
  send_copies zero sign broken turns file r = passed r turns
  send_copies (suc copies) false broken turns file r = send_copies copies false broken turns file r
  send_copies (suc copies) true broken turns file r =
      elim (send_file (length file + 1) broken turns (take cn_write_size file)
        (drop cn_write_size file) r) [
          | failed r' ↦ failed r'
          | waiting r' ↦ waiting r'
          | passed r' turns' ↦ send_copies copies false broken turns' file r'
        ]
