-- ===== src/Tocanonij/Job.antt =====
-- tocanonij/src/main.c, `OutputSetTime` and `main`; tocanonij/src/cnijutil.c,
-- `GetCapabilityFromPPDFile`: the commands before, around and after the pages.
pub mod Order
pub mod Cut
use cnijfilter.Common.{
  ℕ, zero, suc, ◌+◌, ◌-◌, ◌*◌, Bool, true, false, not, Option, none, some, List, [], ◌∷◌, ◌++◌,
  drop, length, if◌then◌else◌, ◌==◌, ltb, ℤ, pos, negsuc, is_zero, int_is,
}
use cnijfilter.Text.{Text, codes}
use cnijfilter.Pwg.PackBits.{Bytes}
use cnijfilter.Pwg.Device.{Device}
use cnijfilter.Posix.{WriteResult, wrote, write_eintr, write_error, write_once, Source}
use cnijfilter.Cndata.{Layout}
use cnijfilter.Tocanonij.Options.{Settings, check_settings, Opt, parse_options}
use cnijfilter.Tocanonij.Pages.{Io, Ending, done, failed, running, PageCommands, page_loop}

-- CNCL_COMMAND_START1, CNCL_COMMAND_START2, CNCL_COMMAND_END
pub data Command : Type 0 where
  start_1 : Command
  start_2 : Command
  end_job : Command

-- The printer library, and what the host says: the functions that `main` calls, for the PPD file.
pub record Library : Type 0 where
  -- `dlopen` and the calls of `dlsym` all succeed, with the path that was asked for.
  pub loads : Option Text → Bool
  -- `CNCL_GetStringWithTagFromFile` for the device id: the library is found, and its bytes.
  pub found : Bool
  pub device_id_tag : Bytes
  pub get_protocol : Text → ℕ
  -- the same for the capability, which may give an error
  pub capability : Option Bytes
  pub host_env : Bytes → ℕ
  pub date_time : Bytes → ℕ
  pub now : Text
  pub start_job_3 : ℕ → Text → Text → Option Bytes
  pub set_job_configuration : Text → Text → Bytes
  pub print_command : Text → Command → Option Bytes
  pub set_time_job : Option Bytes
  pub set_configuration : Settings → Text → Bytes → Option Bytes
  pub pages : Text → PageCommands

-- CN_BUFSIZE
abbrev pub cn_bufsize : ℕ
cn_bufsize = 262144

-- `for (i = 2; i < bufferSize; i++) if (buffer[i] != '\0') temp[j++] = buffer[i];`
unfoldable pub without_zeros : Bytes → Text
without_zeros [] = []
without_zeros (b ∷ bytes) = let more = without_zeros bytes in if b == 0 then more else b ∷ more

-- `GetCapabilityFromPPDFile`: -1, MAKEPPD_FAILED or MAKEPPD_SUCCEEDED, and the device id. A device
-- id has 1,023 bytes at most in the buffer; for a longer one the code writes behind it.
unfoldable pub get_capability : Library → (ℕ → Bool) → ℤ × Text
get_capability l grant =
    if not l.found
    then (negsuc 0, [])
    else if length l.device_id_tag == 0
    then (pos 0, [])
    else if grant 1024
    then (pos 1, without_zeros (drop 2 l.device_id_tag))
    else (negsuc 0, [])

-- A command that is made, and written by one call that must take all of it.
pub send : Option Bytes → Device → Bool × Device
send none d = (false, d)
send (some command) d = elim (write_once d command).0 [
  | wrote n ↦ (n == length command, (write_once d command).1)
  | write_eintr ↦ (false, (write_once d command).1)
  | write_error ↦ (false, (write_once d command).1)
]

-- `if (...) goto onErr; ...`
infixl 5 ◌>>◌
abbrev pub ◌>>◌ : Bool × Device → (Device → Bool × Device) → Bool × Device
m >> k = elim m.0 as (λ b. Bool × Device) [ true ↦ k m.1 | false ↦ (false, m.1) ]

-- `OutputSetTime`
pub output_set_time : Library → Text → Device → Bool × Device
output_set_time l job d =
    if d.grant cn_bufsize
    then send (l.print_command job start_1) d
      >> send (l.print_command job start_2)
      >> send l.set_time_job
      >> send (l.print_command job end_job)
    else (false, d)

-- The device takes a buffer of the size, or the job fails.
pub allocate : Device → Bool × Device
allocate d = (d.grant cn_bufsize, d)

-- `if (ret == 2) { ... SetJobConfiguration ... }`
pub send_date_time : Library → Text → Bytes → Device → Bool × Device
send_date_time l job xml d =
    if l.date_time xml == 2
    then allocate d >> send (some (l.set_job_configuration job l.now))
    else (true, d)

-- CN_START_JOBID and CN_START_JOBID2
unfoldable pub job_id : ℕ → Text
job_id prot = if prot == 2 then codes "00000002" else codes "00000001"

abbrev pub xml_of : Option Bytes → Bytes
xml_of none = []
xml_of (some xml) = xml

-- `if (prot == 2) { ... } else { ... }`
pub start_job : Library → ℕ → Text → Device → Bool × Device
start_job l prot uuid d =
    if prot == 2
    then allocate d
      >> send (l.start_job_3 (l.host_env (xml_of l.capability)) uuid (job_id prot))
      >> send_date_time l (job_id prot) (xml_of l.capability)
    else output_set_time l (job_id prot) d
      >> allocate
      >> send (l.print_command (job_id prot) start_1)

-- A command whose write is not looked at; false where it cannot be made.
pub send_unchecked : Option Bytes → Device → Bool × Device
send_unchecked none d = (false, d)
send_unchecked (some command) d = (true, (write_once d command).1)

-- `GETSETCONFIGURATIONCOMMAND`, with the capability of the PPD file.
pub configure : Library → Settings → Text → Device → Bool × Device
configure l s job d = elim l.capability [
  | none ↦ (false, d)
  | some xml ↦ send_unchecked (l.set_configuration s job xml) d
]

-- "Write Page Data" and the command that ends the job.
pub finish : Layout → Library → Text → ℕ → Io → Ending
finish layout l job fuel io = elim (page_loop layout (l.pages job) fuel cn_bufsize io) [
  | done io' ↦ elim (send_unchecked (l.print_command job end_job) io'.output).0 [
    | true ↦
        done (record io' { output = (send_unchecked (l.print_command job end_job) io'.output).1 })
    | false ↦ failed io'
  ]
  | failed io' ↦ failed io'
  | running io' ↦ running io'
]

-- `main`, with fuel for its loops: result 0 where it is done.
pub run : Layout → Library → ℕ → List Opt → Io → Ending
run layout l fuel opts io =
    let p = parse_options opts in
    let (code, device_id) = get_capability l io.output.grant in
    let prot = l.get_protocol device_id in
    let (ok, d) = start_job l prot p.uuid io.output >> configure l p.settings (job_id prot) in
    if not (l.loads p.lib_path)
    then failed io
    else if not (is_zero (check_settings p.settings))
    then failed io
    else if is_zero code
    then failed io
    else elim ok [
      | true ↦ finish layout l (job_id prot) fuel (record io { output = d })
      | false ↦ failed (record io { output = d })
    ]
