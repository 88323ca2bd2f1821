-- ===== src/Lgmon/Transfer/Prefix.antt =====
-- What the printer gets of the file, where its writes are counted.
use cnijfilter.Common.{
  ℕ, zero, suc, ◌+◌, ◌≡◌, refl, sym, ap, ◌∙◌, Bool, true, false, Bool-cases, inl, inr, Option, none,
  some, List, [], ◌∷◌, ◌++◌, ltb, leb, if◌then◌else◌, take, drop, length, ◌&&◌, subst, ltb→lt,
  append_assoc, append-nil, take-append-drop, length-take, negsuc, ℤ, length-drop, nil_of_length,
  arith,
}
use cnijfilter.Pwg.PackBits.{Bytes}
use cnijfilter.Lgmon.{IfType, usb, net, net2, Session, is_negative, say, plain, lbm_cant_comm_print}
use cnijfilter.Lgmon.Response.{Parser, get_response}
use cnijfilter.Lgmon.Run.{Run, Turn, Step, passed, failed, waiting, catch, call}
use cnijfilter.Lgmon.Transfer.Counted.{
  all_counted, left_of, counted_write, drop-min, first_counted, send_chunk_left,
}
use cnijfilter.Lgmon.Transfer.{
  cn_write_size, cnif_write, is_canceling, interrupted_run, cancel_job, clear_flags, WriteRound,
  again, stop, stuck, note_status, is_again, write_step, round, send_chunk, send_file, send_copies,
}

-- What was sent, and something after it, make up these bytes.
pub record IsPrefix (all : Bytes) (r : Run) : Type 0 where
  pub rest : Bytes
  pub whole : r.sent ++ rest ≡ all

-- A loop that passed has sent the bytes; one that has not, the first of them.
abbrev pub Sent : Bytes → Step → Type 0
Sent all (passed r turns) = r.sent ≡ all
Sent all (failed r) = IsPrefix all r
Sent all (waiting r) = IsPrefix all r

-- The printer has taken so many bytes of the chunk, or none.
abbrev Took : Bytes → Bytes → WriteRound → Type 0
Took before part (again r) = r.sent ≡ before ++ part
Took before part (stop r) = r.sent ≡ before ++ part
Took before part (stuck r) = r.sent ≡ before

abbrev SameSent : Bytes → Option Run → Type 0
SameSent before none = Unit
SameSent before (some r) = r.sent ≡ before

module _ (p : Parser) (grant : ℕ → Bool) (if_type : IfType) where
  note_status-SameSent : (u : Turn) (r : Run) → SameSent r.sent (note_status p grant if_type u r)
  unfolding note_status
  note_status-SameSent u r = elim (Bool-cases (leb 4 u.elapsed)) [
    | inl h ↦ rw h (answered (get_response p grant if_type u.reads r.session))
    | inr h ↦ rw h refl
  ]
    where
      answered :
          (o : Option (ℤ × Session))
          → SameSent r.sent (elim o as (λ x. Option Run) [
            | none ↦ none
            | some (err, s) ↦ some (record r {
              err = err;
              session =
                  if is_canceling err
                  then record s { interrupt_sign = true; is_canceled = true }
                  else s;
            })
          ])
      answered none = tt
      answered (some x) = refl

  interrupted_run-SameSent : (t : IfType) (r : Run) → SameSent r.sent (interrupted_run t r)
  unfolding interrupted_run cancel_job clear_flags call
  interrupted_run-SameSent net r = refl
  interrupted_run-SameSent usb r = ground arith
  interrupted_run-SameSent net2 r = ground arith

  -- The variable of a round, as the write leaves it.
  written : Turn → Bytes → Run → Run
  written u chunk r = record r {
    err = (cnif_write if_type u (length chunk)).0;
    sent = r.sent ++ take u.transfered chunk;
    send_start = true;
  }

  write_step-Took :
      (u : Turn) (chunk : Bytes) (r : Run)
      → Took r.sent (take u.transfered chunk) (write_step p grant if_type u chunk r)
  unfolding write_step written
  write_step-Took u chunk r =
      cases (interrupted_run if_type (written u chunk r))
        (interrupted_run-SameSent if_type (written u chunk r))
    where
      cases :
          (o : Option Run)
          → SameSent (r.sent ++ take u.transfered chunk) o
          → Took r.sent (take u.transfered chunk) (
              let err = (cnif_write if_type u (length chunk)).0 in
              let r2 : Run = record r { err = err; sent = r.sent ++ take u.transfered chunk } in
              if is_negative err
              then (if is_again p grant if_type err r2
                  then again r2
                  else stop (record r2 {
                    session = say (plain lbm_cant_comm_print) r2.session;
                    err = negsuc 6;
                  }))
              else if r.session.interrupt_sign
              then elim o [ some r4 ↦ stop r4 | none ↦ again (written u chunk r) ]
              else again (written u chunk r))
      cases none h = ground arith
      cases (some r4) h = ground arith

  round-Took :
      (u : Turn) (chunk : Bytes) (r : Run)
      → Took r.sent (take u.transfered chunk) (round p grant if_type u chunk r)
  unfolding round catch
  round-Took u chunk r =
      cases (note_status p grant if_type u (catch u r)) (note_status-SameSent u (catch u r))
    where
      cases :
          (o : Option Run)
          → SameSent r.sent o
          → Took r.sent (take u.transfered chunk) (elim o as (λ x. WriteRound) [
            | none ↦ stuck (catch u r)
            | some r1 ↦ write_step p grant if_type u chunk r1
          ])
      cases none h = refl
      cases (some r1) h =
          subst (λ b. Took b (take u.transfered chunk) (write_step p grant if_type u chunk r1)) h
            (write_step-Took u chunk r1)

  prefix_of : (before after : Bytes) (r : Run) → r.sent ≡ before → IsPrefix (before ++ after) r
  prefix_of before after r h = record { rest = after; whole = ap (λ b. b ++ after) h }

  send_chunk-Sent :
      (turns : List Turn) (chunk : Bytes) (r : Run)
      → all_counted if_type turns ≡ true
      → Sent (r.sent ++ chunk) (send_chunk p grant if_type turns chunk r)
  unfolding send_chunk
  send_chunk-Sent turns [] r k = sym (append-nil r.sent)
  send_chunk-Sent [] (b ∷ chunk) r k = prefix_of r.sent (b ∷ chunk) r refl
  send_chunk-Sent (u ∷ turns) (b ∷ chunk) r k =
      cases (round p grant if_type u all r) (round-Took u all r)
        (λ r'. send_chunk-Sent turns more r' (first_counted if_type u turns k).1)
    where
      all : Bytes
      all = b ∷ chunk

      more : Bytes
      more = drop (cnif_write if_type u (length all)).1 all

      same : more ≡ drop u.transfered all
      same =
          ap (λ n. drop n all)
            (counted_write if_type u (length all) (first_counted if_type u turns k).0)
          ∙ drop-min u.transfered all

      joins : (r.sent ++ take u.transfered all) ++ more ≡ r.sent ++ all
      joins =
          append_assoc r.sent (take u.transfered all) more
          ∙ ap (λ c. r.sent ++ (take u.transfered all ++ c)) same
          ∙ ap (λ c. r.sent ++ c) (take-append-drop u.transfered all)

      cases :
          (o : WriteRound)
          → Took r.sent (take u.transfered all) o
          → ((r' : Run) → Sent (r'.sent ++ more) (send_chunk p grant if_type turns more r'))
          → Sent (r.sent ++ all) (elim o as (λ x. Step) [
            | again r' ↦ send_chunk p grant if_type turns more r'
            | stop r' ↦ failed r'
            | stuck r' ↦ waiting r'
          ])
      cases (again r') h ih =
          subst (λ a. Sent a (send_chunk p grant if_type turns more r'))
            (ap (λ a. a ++ more) h ∙ joins) (ih r')
      cases (stop r') h ih =
          subst (λ a. IsPrefix a r') joins (prefix_of (r.sent ++ take u.transfered all) more r' h)
      cases (stuck r') h ih = prefix_of r.sent all r' h

  -- What is a prefix stays one when the file goes on.
  IsPrefix-longer : (all more : Bytes) (r : Run) → IsPrefix all r → IsPrefix (all ++ more) r
  IsPrefix-longer all more r h = record {
    rest = h.rest ++ more;
    whole = sym (append_assoc r.sent h.rest more) ∙ ap (λ b. b ++ more) h.whole;
  }

  send_file-Sent :
      (fuel : ℕ) (broken : Bool) (turns : List Turn) (file : Bytes) (r : Run)
      → all_counted if_type turns ≡ true
      → Sent (r.sent ++ file) (
          send_file p grant if_type fuel broken turns
            (take cn_write_size file)
            (drop cn_write_size file)
            r)
  unfolding send_file
  send_file-Sent zero broken turns file r k = prefix_of r.sent file r refl
  send_file-Sent (suc fuel) broken turns file r k =
      elim (Bool-cases (ltb (length chunk) cn_write_size && broken)) [
        | inl h ↦ rw h (prefix_of r.sent file (record r { err = negsuc 65533 }) refl)
        | inr h ↦ rw h (
            cases (send_chunk p grant if_type turns chunk r) (send_chunk-Sent turns chunk r k)
              (send_chunk_left p grant if_type turns chunk r k)
              (λ turns' r' k'. send_file-Sent fuel broken turns' (drop cn_write_size file) r' k'))
      ]
    where
      chunk : Bytes
      chunk = take cn_write_size file

      more : Bytes
      more = drop cn_write_size file

      joins : (r.sent ++ chunk) ++ more ≡ r.sent ++ file
      joins =
          append_assoc r.sent chunk more
          ∙ ap (λ c. r.sent ++ c) (take-append-drop cn_write_size file)

      short : ltb (length chunk) cn_write_size ≡ true → r.sent ++ chunk ≡ r.sent ++ file
      short h =
          sym (append-nil (r.sent ++ chunk))
          ∙ ap (λ m. (r.sent ++ chunk) ++ m)
              (sym (
                nil_of_length more (
                  omega (
                    arith,
                    length-drop cn_write_size file,
                    length-take cn_write_size file,
                    ltb→lt (length chunk) cn_write_size h,
                  ))))
          ∙ joins

      cases :
          (o : Step)
          → Sent (r.sent ++ chunk) o
          → all_counted if_type (left_of o) ≡ true
          → ((turns' : List Turn) (r' : Run)
              → all_counted if_type turns' ≡ true
              → Sent (r'.sent ++ more) (
                  send_file p grant if_type fuel broken turns'
                    (take cn_write_size more)
                    (drop cn_write_size more)
                    r'))
          → Sent (r.sent ++ file) (elim o as (λ x. Step) [
            | failed r' ↦ failed r'
            | waiting r' ↦ waiting r'
            | passed r' turns' ↦
                if ltb (length chunk) cn_write_size
                then passed r' turns'
                else send_file p grant if_type fuel broken turns'
                    (take cn_write_size more)
                    (drop cn_write_size more)
                    r'
          ])
      cases (failed r') h l ih =
          subst (λ a. IsPrefix a r') joins (IsPrefix-longer (r.sent ++ chunk) more r' h)
      cases (waiting r') h l ih =
          subst (λ a. IsPrefix a r') joins (IsPrefix-longer (r.sent ++ chunk) more r' h)
      cases (passed r' turns') h l ih = elim (Bool-cases (ltb (length chunk) cn_write_size)) [
        | inl t ↦ rw t (h ∙ short t)
        | inr t ↦ rw t (
            subst
              (λ a. Sent a (
                send_file p grant if_type fuel broken turns' (take cn_write_size more)
                  (drop cn_write_size more) r'))
              (ap (λ a. a ++ more) h ∙ joins) (ih turns' r' l))
      ]

  pub no_copies :
      (copies : ℕ) (broken : Bool) (turns : List Turn) (file : Bytes) (r : Run)
      → send_copies p grant if_type copies false broken turns file r ≡ passed r turns
  unfolding send_copies
  no_copies zero broken turns file r = refl
  no_copies (suc copies) broken turns file r = no_copies copies broken turns file r

  -- Where no write over USB is a time-out, and whatever else the printer, the clock and the signals
  -- do, and however many copies are asked for, but one at least: where the transfer passes, the
  -- printer has taken, as the driver of the interface counts it, the file, once; where it fails or
  -- still goes on, the beginning of the file and nothing else.
  pub send_copies-Sent :
      (copies : ℕ) (broken : Bool) (turns : List Turn) (file : Bytes) (r : Run)
      → all_counted if_type turns ≡ true
      → Sent (r.sent ++ file) (send_copies p grant if_type (suc copies) true broken turns file r)
  unfolding send_copies
  send_copies-Sent copies broken turns file r k =
      cases
        (send_file p grant if_type (length file + 1) broken turns (take cn_write_size file)
          (drop cn_write_size file) r)
        (send_file-Sent (length file + 1) broken turns file r k)
    where
      cases :
          (o : Step)
          → Sent (r.sent ++ file) o
          → Sent (r.sent ++ file) (elim o as (λ x. Step) [
            | failed r' ↦ failed r'
            | waiting r' ↦ waiting r'
            | passed r' turns' ↦ send_copies p grant if_type copies false broken turns' file r'
          ])
      cases (failed r') h = h
      cases (waiting r') h = h
      cases (passed r' turns') h =
          subst (Sent (r.sent ++ file)) (sym (no_copies copies broken turns' file r')) h
