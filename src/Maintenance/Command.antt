-- ===== src/Maintenance/Command.antt =====
-- cmdtocanonij2/filter/cmdtocanonij.c, `get_printer_command`, `write_command`,
-- `send_maintenance_command` and `main`: a command file becomes a maintenance job.
pub mod Sends
use cnijfilter.Common.{
  ℕ, zero, suc, ◌+◌, ◌-◌, Bool, true, false, not, ◌&&◌, ◌||◌, Option, none, some, List, [], ◌∷◌,
  ◌++◌, take, drop, length, map, ltb, leb, ◌==◌, if◌then◌else◌, ℤ, pos, negsuc,
}
use cnijfilter.Text.{Text, codes, has_prefix, same_text, strstr}
use cnijfilter.Pwg.PackBits.{Bytes}
use cnijfilter.Pwg.Device.{Device}
use cnijfilter.Posix.{Source}
use cnijfilter.Canonij.Table.{c_string}
use cnijfilter.Maintenance.ReadLine.{read_buf_size, holding, Reader, read_text_line}
use cnijfilter.Maintenance.WriteBuffer.{write_buffer}

-- What `sscanf` finds in a line of the PPD file: the number of its results, its first two
-- characters, and the name of the option, the CUPS command and the printer's command, which are
-- empty where they are not found.
pub record Scanned : Type 0 where
  pub count : ℤ
  pub char_0 : ℕ
  pub char_1 : ℕ
  pub option : Text
  pub cups_cmd : Text
  pub canon_cmd : Text

-- `> 2`
unfoldable pub above_2 : ℤ → Bool
above_2 (pos n) = ltb 2 n
above_2 (negsuc n) = false

-- `if (line_cups_cmd[i] == '_') line_cups_cmd[i] = ' ';`
unfoldable pub blank_of : ℕ → ℕ
blank_of c = if c == 95 then 32 else c

-- The line is an entry, and its command stands at the beginning of the one of the file.
unfoldable pub is_entry_for : Text → Scanned → Bool
is_entry_for cups_command x =
    above_2 x.count
    && (x.char_0 == 42
        && (x.char_1 == 37
            && (same_text x.option (codes "CNMaintenanceCommand")
                && has_prefix cups_command (map blank_of x.cups_cmd))))

-- The loop over the lines that `fgets` gives.
unfoldable pub find_command : (Text → Scanned) → Text → List Text → Option Text
find_command scan cups_command [] = none
find_command scan cups_command (line ∷ lines) =
    let later = find_command scan cups_command lines in
    if is_entry_for cups_command (scan line) then some (scan line).canon_cmd else later

-- `get_printer_command`: the PPD file, if it can be opened, as its lines.
unfoldable pub get_printer_command : (Text → Scanned) → Option (List Text) → Text → Option Text
get_printer_command scan none cups_command = none
get_printer_command scan (some lines) cups_command = find_command scan cups_command lines

-- What the printer library says and makes: the protocol of the device, or that its functions or its
-- capability are not there; for protocol 2 the command that starts a job (or an error, or functions
-- that are not there), whether it takes a date and what `MakeCommand_SetJobConfiguration` leaves to
-- write; the other commands, or an error. `malloc` grants the buffer for commands.
pub record MaintenanceLibrary : Type 0 where
  pub has_buffer : Bool
  pub protocol : Option ℕ
  pub start_job_3 : Option Bytes
  pub takes_date : Bool
  pub job_configuration : Bytes
  pub start_1 : Option Bytes
  pub start_2 : Text → Option Bytes
  pub end_job : Text → Option Bytes

-- PROC_SUCCEEDED or PROC_FAILED, with standard output; none for a write that does not end.
abbrev pub Proc : Type 0
Proc = Option (Bool × Device)

-- `if (write_buffer (...) != PROC_SUCCEEDED) goto onErr;`, for a command or an error, and what is
-- behind it.
unfoldable pub write_then : Option Bytes → Device → (Device → Proc) → Proc
write_then none d k = some (false, d)
write_then (some buffer) d k = elim (write_buffer buffer d) [ none ↦ none | some e ↦ k e ]

-- `start_cmd`, `end_cmd`
abbrev pub start_cmd : Bytes
start_cmd = 27 ∷ (91 ∷ (75 ∷ (2 ∷ (0 ∷ (0 ∷ (31 ∷ (codes "BJLSTART" ++ (10 ∷ []))))))))

abbrev pub end_cmd : Bytes
end_cmd = 10 ∷ (codes "BJLEND" ++ (10 ∷ []))

-- From "start2" on, for the number of the job. The command that sets the time has no bytes.
unfoldable pub finish_command : MaintenanceLibrary → Text → Text → Device → Proc
finish_command l job_id command d0 = write_then (l.start_2 job_id) d0 (λ d1.
    write_then (some []) d1 (λ d2. write_then (some start_cmd) d2 (λ d3.
      write_then (some (c_string command)) d3 (λ d4.
        write_then (some end_cmd) d4
          (λ d5. write_then (l.end_job job_id) d5 (λ d6. some (true, d6)))))))

-- `write_command`, for a command.
unfoldable pub write_command : MaintenanceLibrary → Text → Device → Proc
write_command l command d = if not l.has_buffer then some (false, d) else elim l.protocol [
  | none ↦ some (false, d)
  | some prot ↦
      if prot == 2
      then write_then l.start_job_3 d (λ d1.
        if l.takes_date
        then write_then (some l.job_configuration) d1
            (λ d2. finish_command l (codes "00000002") command d2)
        else finish_command l (codes "00000002") command d1)
      else write_then l.start_1 d (λ d1. finish_command l (codes "00000001") command d1)
]

-- `!strncmp (read_buf, "#CUPS-COMMAND", read_bytes - 1)`
unfoldable pub is_header : Bytes → Bool
is_header line =
    same_text (take (length line - 1) (c_string line))
      (take (length line - 1) (codes "#CUPS-COMMAND"))

-- A line of the command file: `read_line` with DATA_BUF_SIZE - 1, with a round for each byte and one
-- more; none where it does not end.
unfoldable pub next_command : Reader → Option (Bytes × Reader)
next_command r = read_text_line read_buf_size (read_buf_size - 1) r

-- `send_maintenance_command`: the first line is the header, the second one the command.
unfoldable pub send_maintenance_command :
    (Text → Scanned) → Option (List Text) → MaintenanceLibrary → Reader → Device → Proc
send_maintenance_command scan ppd l r d = elim (next_command r) [
  | none ↦ none
  | some (line, r1) ↦
      if length line == 0 || not (is_header line) then some (false, d) else elim (next_command r1) [
        | none ↦ none
        | some (line2, r2) ↦
            if length line2 == 0
            then some (false, d)
            else elim (get_printer_command scan ppd (c_string line2)) [
              | none ↦ some (false, d)
              | some command ↦ write_command l command d
            ]
      ]
]

-- The job is named by its uuid, or else by its number, cut at UUID_LEN bytes.
unfoldable pub job_desc : Text → Text → Text
job_desc job_number options = elim (strstr options (codes "job-uuid=urn:uuid:")) [
  | none ↦ take 36 job_number
  | some cnt ↦ take 36 (drop 18 cnt)
]

-- `main`: the arguments are 6 or 7 in number, and the file that the seventh one names can be opened.
-- Standard output after it; the code of `main` is 0 whatever happened. None where it does not end.
unfoldable pub maintenance_main :
    (Text → Scanned)
    → Option (List Text)
    → (Text → MaintenanceLibrary)
    → ℕ
    → Text
    → Text
    → Option Source
    → Device
    → Option (ℤ × Device)
maintenance_main scan ppd library argc job_number options input d =
    if ltb argc 6 || ltb 7 argc then some (pos 0, d) else elim input [
      | none ↦ some (pos 0, d)
      | some source ↦
          elim (send_maintenance_command scan ppd (library (job_desc job_number options))
            (record { held = holding []; input = source }) d) [
              | none ↦ none
              | some (ok, e) ↦ some (pos 0, e)
            ]
    ]
