-- ===== src/Maintenance/Tests.antt =====
-- The theorems on cmdtocanonij2/filter/cmdtocanonij.c at concrete inputs.
use cnijfilter.Common.{◌≡◌, refl, true, false, none, some, [], ◌∷◌, ◌++◌, pos, arith}
use cnijfilter.Text.{Text, codes, has_prefix, same_text}
use cnijfilter.Pwg.PackBits.{Bytes}
use cnijfilter.Pwg.Device.{Device, taken, interrupted}
use cnijfilter.Posix.{offers, read_interrupted}
use cnijfilter.Canonij.Table.{c_string}
use cnijfilter.Maintenance.ReadLine.{Reader, holding, is_return, read_text_line}
use cnijfilter.Maintenance.ReadLine.Lines.{
  line_of, rest_of, Line, read_text_line-Line, read_text_line_interrupted,
}
use cnijfilter.Maintenance.WriteBuffer.{write_buffer}
use cnijfilter.Maintenance.WriteBuffer.Ends.{output_of, write_buffer_failed}
use cnijfilter.Maintenance.Command.{
  Scanned, above_2, blank_of, is_entry_for, find_command, get_printer_command, MaintenanceLibrary,
  is_header, send_maintenance_command,
}
use cnijfilter.Maintenance.Command.Sends.{
  pieces_joined, Sends, older, job_pieces, first_line, second_line, send_maintenance_command-Sends,
}

-- A command file that comes in two reads.
abbrev command_file : Bytes
command_file = codes "#CUPS-COMMAND" ++ (10 ∷ (codes "Clean all" ++ (10 ∷ [])))

abbrev reader : Reader
reader = record {
  held = holding [];
  input = record { bytes = command_file; answers = offers 3 ∷ (offers 20 ∷ []) };
}

abbrev output : Device
output = record { bytes = []; answers = taken 1 ∷ (taken 0 ∷ []); grant = λ n. true }

-- A PPD file of one entry.
abbrev scan_entry : Text → Scanned
scan_entry line = record {
  count = pos 6;
  char_0 = 42;
  char_1 = 37;
  option = codes "CNMaintenanceCommand";
  cups_cmd = codes "Clean_all";
  canon_cmd = codes "@Cleaning=1ALL";
}

abbrev library : MaintenanceLibrary
library = record {
  has_buffer = true;
  protocol = some 1;
  start_job_3 = none;
  takes_date = false;
  job_configuration = [];
  start_1 = some (1 ∷ []);
  start_2 = λ job_id. some (2 ∷ job_id);
  end_job = λ job_id. some (3 ∷ job_id);
}

header_of_file : is_header (first_line (rest_of reader)) ≡ true
unfolding line_of is_return is_header same_text c_string
header_of_file = refl

command_of_file :
    get_printer_command scan_entry (some ([] ∷ [])) (c_string (second_line (rest_of reader)))
    ≡ some (codes "@Cleaning=1ALL")
unfolding line_of is_return get_printer_command find_command is_entry_for above_2 blank_of same_text
    has_prefix c_string
command_of_file = refl

read_text_line-Line_example : Line 30 (rest_of reader) (read_text_line 31 30 reader)
read_text_line-Line_example =
    read_text_line-Line 31 30 reader (omega arith) (tt, (omega arith, (omega arith, tt)))

read_text_line_interrupted_example :
    read_text_line 9 5 (record {
      held = holding [];
      input = record { bytes = command_file; answers = read_interrupted ∷ [] };
    })
    ≡ none
read_text_line_interrupted_example = read_text_line_interrupted 9 4 command_file []

write_buffer_failed_example :
    write_buffer (5 ∷ (6 ∷ [])) (output_of (1 ∷ []) (interrupted ∷ (taken 1 ∷ [])) (λ n. true))
    ≡ some (output_of (1 ∷ []) (taken 1 ∷ []) (λ n. true))
write_buffer_failed_example =
    write_buffer_failed 5 (6 ∷ []) (1 ∷ []) interrupted (taken 1 ∷ []) (λ n. true) tt (omega arith)

send_maintenance_command-Sends_example :
    Sends []
      (pieces_joined (
        job_pieces (1 ∷ []) (2 ∷ codes "00000001") (codes "@Cleaning=1ALL") (3 ∷ codes "00000001")))
      (send_maintenance_command scan_entry (some ([] ∷ [])) library reader output)
send_maintenance_command-Sends_example =
    send_maintenance_command-Sends scan_entry (some ([] ∷ [])) library 1 (codes "00000001")
      (codes "@Cleaning=1ALL") (1 ∷ []) (2 ∷ codes "00000001") (3 ∷ codes "00000001") reader output
      (tt, (omega arith, (omega arith, tt))) (tt, (tt, tt))
      (unfold line_of in unfold is_return in refl) header_of_file
      (unfold line_of in unfold is_return in refl) command_of_file refl refl
      (older 1 (1 ∷ []) refl refl) refl refl
