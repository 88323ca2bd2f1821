-- ===== src/Lgmon/Tests.antt =====
-- Concrete runs of lgmon3/src/cnijlgmon3.c, and the theorems at concrete inputs.
use cnijfilter.Common.{ℕ, ◌≡◌, refl, ◌↔◌, Bool, true, false, List, [], ◌∷◌, ◌++◌, pos, arith}
use cnijfilter.Text.{codes, same_text}
use cnijfilter.Pwg.PackBits.{Bytes}
use cnijfilter.Lgmon.{
  usb, net, is_negative, is_negsuc, discover, installer_net, print, task_error, task_of,
}
use cnijfilter.Lgmon.Response.{Parser, interpret_response}
use cnijfilter.Lgmon.Response.Laws.{IsTakenForIdle, interpret_response_idle_iff}
use cnijfilter.Lgmon.Run.{Run, Turn, passed}
use cnijfilter.Lgmon.Transfer.{send_copies}
use cnijfilter.Lgmon.Transfer.Counted.{is_counted, all_counted}
use cnijfilter.Lgmon.Transfer.Prefix.{Sent, send_copies-Sent}
use cnijfilter.Lgmon.Transfer.Whole.{IsProductive, send_copies-Passed}
use cnijfilter.Lgmon.Monitor.{do_job, first_run, monitor}
use cnijfilter.Lgmon.Monitor.Exit.{Coded, monitor-Coded}
use cnijfilter.Lgmon.Monitor.Sent.{Left, monitor-Left}

-- A printer of the older protocol whose status is the first byte of its answer.
abbrev status_at : Bytes → ℕ
status_at [] = 0
status_at (b ∷ bytes) = b

abbrev printer : Parser
printer = record {
  get_info_response = λ bytes. (pos 0, 14);
  get_status =
      λ bytes. record { err = pos 0; status = status_at bytes; detail = 0; support_id = [] };
  get_status2 = λ bytes n.
      (record { err = pos 0; status = status_at bytes; detail = 0; support_id = [] }, codes "7");
  get_status2_maintenance = λ bytes n.
      (record { err = pos 10; status = status_at bytes; detail = 0; support_id = [] }, codes "7");
  content_type = codes "application/octet-stream";
}

abbrev grants : ℕ → Bool
grants n = true

-- The bytes go through, as many as there are or at most two.
abbrev idle_turn : Turn
idle_turn = record {
  signal = false;
  elapsed = 0;
  reads = record { err = pos 0; bytes = 1 ∷ [] } ∷ [];
  result = pos 0;
  transfered = 2;
}

abbrev signal_turn : Turn
signal_turn = record idle_turn { signal = true }

abbrev turns : List Turn
turns =
    idle_turn
    ∷ (idle_turn ∷ (idle_turn ∷ (idle_turn ∷ (idle_turn ∷ (idle_turn ∷ (idle_turn ∷ []))))))

abbrev cut_turns : List Turn
cut_turns = idle_turn ∷ (idle_turn ∷ (idle_turn ∷ (idle_turn ∷ (signal_turn ∷ (idle_turn ∷ [])))))

abbrev file : Bytes
file = 5 ∷ (6 ∷ (7 ∷ []))

words_of_task :
    (task_of 1 [] 0 ≡ discover)
    × (task_of 2 (codes "--installer_net") 0 ≡ installer_net)
    × (task_of 5 (codes "file") 3 ≡ print 3)
    × (task_of 3 [] 0 ≡ task_error)
unfolding task_of same_text
words_of_task = (refl, refl, refl, refl)

productive : IsProductive idle_turn
productive = record {
  silent = refl;
  soon = omega arith;
  well = unfold is_negative in refl;
  some_bytes = omega arith;
}

interpret_response_idle_iff_example :
    ((interpret_response printer (1 ∷ []) first_run.session).0 ≡ pos 1)
    ↔ IsTakenForIdle printer (1 ∷ [])
interpret_response_idle_iff_example = interpret_response_idle_iff printer (1 ∷ []) first_run.session

counted_turns : all_counted usb cut_turns ≡ true
unfolding all_counted is_counted is_negsuc
counted_turns = refl

all_turns_counted : all_counted usb turns ≡ true
unfolding all_counted is_counted is_negsuc
all_turns_counted = refl

send_copies-Sent_example :
    Sent file (send_copies printer grants usb 3 true false cut_turns file first_run)
send_copies-Sent_example =
    send_copies-Sent printer grants usb 2 false cut_turns file first_run counted_turns

send_copies-Passed_example :
    (end : Run) × (left : List Turn) × (send_copies printer grants net 2 true false turns file
        first_run
      ≡ passed end left)
    × (end.sent ≡ [] ++ file)
send_copies-Passed_example =
    send_copies-Passed printer grants net 1 turns file first_run
      (
        productive,
        (productive, (productive, (productive, (productive, (productive, (productive, tt)))))),
      )
      refl (omega arith)

monitor-Coded_example :
    Coded
      (do_job printer grants usb 1 false file turns first_run)
      (monitor printer grants usb 1 false file turns)
monitor-Coded_example = monitor-Coded printer grants usb 1 false file turns tt

monitor-Left_example : Left file (monitor printer grants usb 1 false file turns)
monitor-Left_example = monitor-Left printer grants usb 1 false file turns all_turns_counted
