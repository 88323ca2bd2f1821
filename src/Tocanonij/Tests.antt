-- ===== src/Tocanonij/Tests.antt =====
-- Concrete runs of tocanonij/src/main.c, and the theorems at concrete inputs.
use cnijfilter.Common.{
  ℕ, suc, ◌≡◌, ◌↔◌, refl, Bool, true, false, Option, none, some, List, [], ◌∷◌, ◌++◌, All, take,
  length, arith,
}
use cnijfilter.Text.{Text, codes, same_text, has_prefix, strstr}
use cnijfilter.Pwg.PackBits.{Bytes}
use cnijfilter.Pwg.Device.{taken, interrupted}
use cnijfilter.Posix.{ReadAnswer, offers, read_interrupted}
use cnijfilter.Cndata.Cells.{cells}
use cnijfilter.Tocanonij.Names.{
  buf_name, convert_str_to_id, is_number, size_loop, size_step, is_size_x, to_lower,
  to_lower_except_size_x, is_borderless,
}
use cnijfilter.Tocanonij.Names.Sizes.{IsSize, is_size_x_iff}
use cnijfilter.Tocanonij.Names.Known.{IsKnown, convert_str_to_id-IsKnown}
use cnijfilter.Tocanonij.Names.Tables.{mediatype_tbl, papersize_tbl, colormode_tbl, duplexprint_tbl}
use cnijfilter.Tocanonij.Options.{
  is_unset, init_settings, check_settings, Opt, opt_papersize, opt_mediatype, opt_colormode,
  opt_duplexprint, opt_jobid, borderless, copy_uuid, apply_option, apply_options, parse_options,
}
use cnijfilter.Tocanonij.Pages.{done, failed, running, copy_image, page_loop}
use cnijfilter.Tocanonij.Pages.Stream.{Page, stream, making, Wrapped, page_loop-stream}
use cnijfilter.Tocanonij.Pages.Stuck.{plain, copy_image_cut_off, copy_image_interrupted}
use cnijfilter.Tocanonij.Job.{
  Library, Command, start_1, start_2, end_job, get_capability, without_zeros, job_id, run,
}
use cnijfilter.Tocanonij.Job.Order.{Makes, quiet, Starts, Printed, run-Printed}
use cnijfilter.Tocanonij.Job.Cut.{answering, run_cut_start}

is_size_x_iff_example : (is_size_x (codes "4X6.bl") ≡ true) ↔ IsSize (codes "4X6.bl")
is_size_x_iff_example = is_size_x_iff (codes "4X6.bl")

convert_str_to_id-IsKnown_example :
    All (IsKnown mediatype_tbl (codes "a4")) mediatype_tbl
    × All (IsKnown papersize_tbl (codes "a4")) papersize_tbl
    × All (IsKnown colormode_tbl (codes "a4")) colormode_tbl
    × All (IsKnown duplexprint_tbl (codes "a4")) duplexprint_tbl
convert_str_to_id-IsKnown_example = convert_str_to_id-IsKnown (codes "a4")

-- The options of a job.
abbrev opts : List Opt
opts =
    opt_jobid (codes "7")
    ∷ opt_papersize (codes "A4.bl")
    ∷ opt_mediatype (codes "plain")
    ∷ opt_colormode (codes "false")
    ∷ opt_duplexprint (codes "None")
    ∷ []

abbrev pages : List Page
pages =
    record { next_page = 1; page_num = 2; image = 9 ∷ 8 ∷ 7 ∷ [] }
    ∷ record { next_page = 0; page_num = 3; image = 6 ∷ [] }
    ∷ []

abbrev config : Bool → Bytes
config true = 1 ∷ []
config false = 2 ∷ []

abbrev answers : List ReadAnswer
answers = read_interrupted ∷ offers 5 ∷ offers 6 ∷ []

page_loop-stream_example :
    Wrapped cells config
      (λ n. n ∷ [])
      2
      (4 ∷ [])
      pages
      (page_loop cells (making config (λ n. n ∷ [])) 30 2 (record {
        input = record { bytes = stream cells pages; answers = answers };
        output = record { bytes = 4 ∷ []; answers = []; grant = λ n. true };
      }))
page_loop-stream_example =
    page_loop-stream cells config (λ n. n ∷ []) 2 (λ n. true) 30 answers pages (4 ∷ [])
      (omega arith) (omega arith) (unfold stream in omega arith)

copy_image_cut_off_example :
    copy_image 100 4 (suc 2) (plain [] [] (λ n. true) (4 ∷ []))
    ≡ running (plain [] [] (λ n. true) (4 ∷ []))
copy_image_cut_off_example = copy_image_cut_off 100 4 2 (4 ∷ []) (λ n. true)

copy_image_interrupted_example :
    copy_image
      (suc 9)
      4
      (suc (length {A = ℕ} (8 ∷ [])))
      (plain (9 ∷ 8 ∷ []) (interrupted ∷ []) (λ n. true) (4 ∷ []))
    ≡ done (plain [] [] (λ n. true) (4 ∷ []))
copy_image_interrupted_example =
    copy_image_interrupted 9 4 [] (4 ∷ []) 9 (8 ∷ []) (λ n. true) (omega arith)

-- A library that makes a byte for each command.
abbrev command_of : Text → Command → Option Bytes
command_of job start_1 = some (11 ∷ 11 ∷ [])
command_of job start_2 = some (12 ∷ [])
command_of job end_job = some (13 ∷ [])

abbrev library : Library
library = record {
  loads = λ path. true;
  found = true;
  device_id_tag = 0 ∷ 9 ∷ 77 ∷ 0 ∷ 78 ∷ [];
  get_protocol = λ id. 1;
  capability = some (60 ∷ []);
  host_env = λ xml. 0;
  date_time = λ xml. 0;
  now = [];
  start_job_3 = λ env uuid job. none;
  set_job_configuration = λ job now. [];
  print_command = command_of;
  set_time_job = some (14 ∷ []);
  set_configuration = λ s job xml. some (15 ∷ xml);
  pages = λ job. making config (λ n. n ∷ []);
}

library-Makes :
    Makes library
      (job_id (library.get_protocol (get_capability library (λ n. true)).1))
      (parse_options opts).settings
library-Makes = record {
  start_one = 11 ∷ 11 ∷ [];
  start_two = 12 ∷ [];
  time = 14 ∷ [];
  end_of_job = 13 ∷ [];
  xml = 60 ∷ [];
  configuration = 15 ∷ 60 ∷ [];
  page_configuration = config;
  send_data = λ n. n ∷ [];
  makes_start_one = refl;
  makes_start_two = refl;
  makes_time = refl;
  makes_end = refl;
  has_xml = refl;
  makes_configuration = refl;
  makes_pages = refl;
}

library-Starts : Starts library opts
unfolding check_settings parse_options apply_options apply_option init_settings copy_uuid
    convert_str_to_id buf_name to_lower_except_size_x is_size_x size_loop size_step to_lower
    is_borderless borderless is_unset get_capability without_zeros is_number same_text strstr
    has_prefix
library-Starts = record { loads = refl; checked = refl; code = refl; protocol = refl }

run-Printed_example :
    Printed library
      (job_id (library.get_protocol (get_capability library (λ n. true)).1))
      (parse_options opts).settings
      library-Makes
      ((((((((4 ∷ []) ++ library-Makes.start_one) ++ library-Makes.start_two) ++ library-Makes.time)
            ++ library-Makes.end_of_job)
          ++ library-Makes.start_one)
        ++ library-Makes.configuration))
      pages
      (run cells library 30 opts (record {
        input = record { bytes = stream cells pages; answers = answers };
        output = quiet (4 ∷ []);
      }))
run-Printed_example =
    run-Printed cells library 30 opts library-Makes answers pages (4 ∷ []) library-Starts
      (omega arith) (unfold stream in omega arith)

run_cut_start_example :
    run cells library 30 opts
      (record { input = record { bytes = []; answers = [] }; output = answering (taken 1 ∷ []) [] })
    ≡ failed (record {
      input = record { bytes = []; answers = [] };
      output = answering [] ([] ++ take 1 (11 ∷ 11 ∷ []));
    })
run_cut_start_example =
    run_cut_start cells library 30 1 opts (record { bytes = []; answers = [] }) [] (11 ∷ 11 ∷ []) []
      library-Starts refl (omega arith)
