-- ===== src/Maintenance/Command/Sends.antt =====
-- A command file that is in order becomes a maintenance job.
use cnijfilter.Common.{
  ℕ, ◌-◌, ◌≡◌, refl, sym, ap, ◌∙◌, true, false, Option, some, List, [], ◌∷◌, ◌++◌, drop, length,
  All, append_assoc, append-nil, ◌==◌, arith,
}
use cnijfilter.Text.{Text, codes}
use cnijfilter.Pwg.PackBits.{Bytes}
use cnijfilter.Pwg.Device.{Device}
use cnijfilter.Canonij.Table.{c_string}
use cnijfilter.Maintenance.ReadLine.{read_buf_size, Reader}
use cnijfilter.Maintenance.ReadLine.Lines.{line_of, rest_of, IsOffering, read_text_line-Line}
use cnijfilter.Maintenance.WriteBuffer.Ends.{IsCount, write_buffer-Wrote}
use cnijfilter.Maintenance.Command.{
  Scanned, get_printer_command, MaintenanceLibrary, Proc, write_then, start_cmd, end_cmd,
  finish_command, write_command, is_header, next_command, send_maintenance_command,
}

-- The pieces, one behind the other.
unfoldable pub pieces_joined : List Bytes → Bytes
pieces_joined [] = []
pieces_joined (p ∷ ps) = p ++ pieces_joined ps

-- The work succeeded, and the bytes went out behind those before.
pub record Sends (bytes all : Bytes) (o : Proc) : Type 0 where
  pub device : Device
  pub is_sent : o ≡ some (true, device)
  pub bytes_of : device.bytes ≡ bytes ++ all

write_then-Sends :
    (buffer rest : Bytes) (d : Device) (k : Device → Proc)
    → All IsCount d.answers
    → ((e : Device) → All IsCount e.answers → Sends e.bytes rest (k e))
    → Sends d.bytes (buffer ++ rest) (write_then (some buffer) d k)
unfolding write_then
write_then-Sends buffer rest d k c h =
    let w = write_buffer-Wrote buffer d c in
    let s = h w.device w.counts in
    rw (w.is_device, write_then)
      (record {
        device = s.device;
        is_sent = s.is_sent;
        bytes_of = s.bytes_of ∙ ap (λ b. b ++ rest) w.bytes_of ∙ append_assoc d.bytes buffer rest;
      })

finish_command-Sends :
    (l : MaintenanceLibrary) (job_id command : Text) (second last : Bytes) (d : Device)
    → l.start_2 job_id ≡ some second
    → l.end_job job_id ≡ some last
    → All IsCount d.answers
    → Sends d.bytes
        (pieces_joined (second ∷ (start_cmd ∷ (c_string command ∷ (end_cmd ∷ (last ∷ []))))))
        (finish_command l job_id command d)
unfolding finish_command pieces_joined
finish_command-Sends l job_id command second last d s e c =
    rw (s, finish_command)
      (write_then-Sends second _ d _ c (λ d1 c1. write_then-Sends [] _ d1 _ c1 (λ d2 c2.
        write_then-Sends start_cmd _ d2 _ c2 (λ d3 c3.
          write_then-Sends (c_string command) _ d3 _ c3
            (λ d4 c4. write_then-Sends end_cmd _ d4 _ c4 (λ d5 c5. ended d5 c5))))))
  where
    ended :
        (d5 : Device)
        → All IsCount d5.answers
        → Sends d5.bytes (last ++ []) (write_then (l.end_job job_id) d5 (λ d6. some (true, d6)))
    ended d5 c5 = rw e (
        write_then-Sends last [] d5 (λ d6. some (true, d6)) c5
          (λ d6 c6. record { device = d6; is_sent = refl; bytes_of = sym (append-nil d6.bytes) }))

-- What starts a job, with the job's number, for the protocol of the device.
pub data Opening (l : MaintenanceLibrary) : ℕ → Text → Bytes → Type 0 where
  older :
      (prot : ℕ) (b : Bytes)
      → (prot == 2) ≡ false
      → l.start_1 ≡ some b
      → Opening l prot (codes "00000001") b
  newer :
      (prot : ℕ) (b : Bytes)
      → (prot == 2) ≡ true
      → l.start_job_3 ≡ some b
      → l.takes_date ≡ false
      → Opening l prot (codes "00000002") b
  dated :
      (prot : ℕ) (b : Bytes)
      → (prot == 2) ≡ true
      → l.start_job_3 ≡ some b
      → l.takes_date ≡ true
      → Opening l prot (codes "00000002") (b ++ l.job_configuration)

Sends-after :
    (bytes first second rest : Bytes) (o : Proc)
    → Sends bytes (first ++ (second ++ rest)) o
    → Sends bytes ((first ++ second) ++ rest) o
Sends-after bytes first second rest o s = record {
  device = s.device;
  is_sent = s.is_sent;
  bytes_of = s.bytes_of ∙ ap (λ b. bytes ++ b) (sym (append_assoc first second rest));
}

-- The pieces of a job.
abbrev pub job_pieces : Bytes → Bytes → Text → Bytes → List Bytes
job_pieces first second command last =
    first ∷ (second ∷ (start_cmd ∷ (c_string command ∷ (end_cmd ∷ (last ∷ [])))))

write_command-Sends :
    (l : MaintenanceLibrary) (prot : ℕ) (job_id command : Text) (first second last : Bytes)
    (d : Device)
    → l.has_buffer ≡ true
    → l.protocol ≡ some prot
    → Opening l prot job_id first
    → l.start_2 job_id ≡ some second
    → l.end_job job_id ≡ some last
    → All IsCount d.answers
    → Sends d.bytes
        (pieces_joined (job_pieces first second command last))
        (write_command l command d)
unfolding write_command pieces_joined finish_command
write_command-Sends l prot job_id command first second last d h p (older prot' b q e) s t c =
    rw (h, p, write_command, q, e, write_command)
      (write_then-Sends b _ d _ c
        (λ d1 c1. finish_command-Sends l (codes "00000001") command second last d1 s t c1))
write_command-Sends l prot job_id command first second last d h p (newer prot' b q e g) s t c =
    rw (h, p, write_command, q, e, g, write_command)
      (write_then-Sends b _ d _ c
        (λ d1 c1. finish_command-Sends l (codes "00000002") command second last d1 s t c1))
write_command-Sends l prot job_id command first second last d h p (dated prot' b q e g) s t c =
    rw (h, p, write_command, q, e, g, write_command)
      (Sends-after d.bytes b l.job_configuration _ _ (
        write_then-Sends b _ d _ c (λ d1 c1.
          write_then-Sends l.job_configuration _ d1 _ c1
            (λ d2 c2. finish_command-Sends l (codes "00000002") command second last d2 s t c2))))

-- The lines of the command file: the header, and the one behind it.
abbrev pub first_line : Bytes → Bytes
first_line file = line_of (read_buf_size - 1) file

abbrev pub second_line : Bytes → Bytes
second_line file = first_line (drop (length (first_line file)) file)

-- Where the reads of the command file bring a byte at least, if there is one, and each write takes a
-- number of bytes, however they split them; and where the first line of the file is the header, the
-- second one names an entry of the PPD file, and the library makes all commands for the protocol of
-- the device: the job succeeds, and what goes out is what starts a job for that protocol, the second
-- start command, the command of the entry between its marks, and the end command.
pub send_maintenance_command-Sends :
    (scan : Text → Scanned) (ppd : Option (List Text)) (l : MaintenanceLibrary) (prot : ℕ)
    (job_id command : Text) (first second last : Bytes) (r : Reader) (d : Device)
    → IsOffering r
    → All IsCount d.answers
    → (length (first_line (rest_of r)) == 0) ≡ false
    → is_header (first_line (rest_of r)) ≡ true
    → (length (second_line (rest_of r)) == 0) ≡ false
    → get_printer_command scan ppd (c_string (second_line (rest_of r))) ≡ some command
    → l.has_buffer ≡ true
    → l.protocol ≡ some prot
    → Opening l prot job_id first
    → l.start_2 job_id ≡ some second
    → l.end_job job_id ≡ some last
    → Sends d.bytes
        (pieces_joined (job_pieces first second command last))
        (send_maintenance_command scan ppd l r d)
unfolding send_maintenance_command next_command
send_maintenance_command-Sends scan ppd l prot job_id command first second last r d o c n1 h1 n2 g b
      p q s t =
    let x = read_text_line-Line read_buf_size (read_buf_size - 1) r (omega arith) o in
    let y =
      read_text_line-Line read_buf_size (read_buf_size - 1) x.after (omega arith) x.offering in
    let e : next_command x.after ≡ some (second_line (rest_of r), y.after) =
      y.is_line ∙ ap (λ f. some (first_line f, y.after)) x.left in
    rw (x.is_line, send_maintenance_command, n1, h1, e, send_maintenance_command, n2, g)
      (write_command-Sends l prot job_id command first second last d b p q s t c)
