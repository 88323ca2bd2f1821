-- ===== src/Lib.antt =====
-- Verification library of cnijfilter2, the CUPS driver for Canon inkjet printers.
--
-- The driver is a chain of filters. rastertocanonij reads the PPD and the job's options and starts
-- the others; tocnpwg (tocnpwg/src/main.c) turns the CUPS raster of a page into PWG raster, scaled,
-- centred and mirrored as the job asks; tocanonij wraps the result into the printer's commands, and
-- the backend cnijbe2 starts the monitor of lgmon3, which sends it to the printer.
--
-- From tocnpwg/src/main.c:
--   Pwg/Device    `cups_write_fd` and `cups_raster_io`. A file is its bytes and the answers of the
--                 calls of write (2) to come, which may be short, interrupted or refused.
--   Pwg/PackBits  the main loop of `cups_raster_write`, on the pixels of a row; PackBits/Decode is
--                 an independent reader of the format, for rows and for pages.
--   Pwg/Raster    `pwg_raster_s`, `cups_raster_write`, `pwgRasterWritePixels` and
--                 `WriteWhiteLineToPWG`. `Raster` is the structure; each operation takes it and
--                 gives it back with the call's result.
--   Pwg/Header    `pwgraster_update` and `pwgRasterWriteHeader`.
--   Pwg/Extend    `h_extend`, against the formula of the nearest pixel.
--   Pwg/Mirror    `mirror_raster`.
--   Pwg/Scale     `ComputeDestinationSize`, over an interface of the laws of `double`.
--   Pwg/Page      the normal print of `CreatePWGPageData`.
--   Pwg/Rotate    the rotated print of `CreatePWGPageData`, with its temporary file.
--   Pwg/Create    `pwgRasterTempOpen` and the whole of `CreatePWGPageData`.
--   Pwg/Output    `pwgRasterDump`, `OutputPWGPageData`, `isRotate` and `main`; Output/Chain joins its
--                 output to the input of tocanonij.
-- From rastertocanonij/src:
--   Canonij/ParamList  paramlist.c, the list of options and values, as a map.
--   Canonij/Table      canonopt.c, the table of option names that stands in comments of the PPD file,
--                      from the bytes of the file to the look-up.
--   Canonij/Settings   getsettings.c, `GetPrinterSettings`.
--   Canonij/PrintArea  canonopt.c, the table of printable areas, and getsettings.c,
--                      `GetPrinterableAreaOptionFromPPD`.
--   Canonij/Command    main.c and common.c, the command line that starts tocnpwg and tocanonij, and
--                      `main` up to there.
--   Canonij/Forward    main.c, the loop that forwards the raster to them.
-- From tocanonij/src:
--   Tocanonij/Names    main.c, the names of the options' choices, with the tables of
--                      include/cncl/cncl_paramtbl.h.
--   Tocanonij/Options  main.c, the loop over the options, and `CheckSettings`.
--   Tocanonij/Pages    main.c, the loop over the pages that come from tocnpwg.
--   Tocanonij/Job      main.c, `OutputSetTime` and the rest of `main`; cnijutil.c,
--                      `GetCapabilityFromPPDFile`.
-- From cmdtocanonij2/filter/cmdtocanonij.c:
--   Maintenance/ReadLine     `read_line` with its static buffer.
--   Maintenance/WriteBuffer  `write_buffer`.
--   Maintenance/Command      `get_printer_command`, `write_command`, `send_maintenance_command` and
--                            `main`, over sscanf and the printer library.
-- From lgmon3/src/cnijlgmon3.c:
--   Lgmon              the session's variables, the lines on standard error, the choice of the task.
--   Lgmon/Response     `CNIF_GetResponse`, over the functions of the printer library.
--   Lgmon/Transfer     "TransferData" of `main`, which sends the file, with `CNIF_Write` of
--                      lgmon3/src/cnijcomif.c; what the printer takes is what the driver counts.
--   Lgmon/Monitor      `main` from `CNIF_Open` to its end. What the interface, the clock and signals
--                      do in a round of a loop is a `Turn`; a loop with no turn left is `waiting`.
-- Posix holds single calls of read (2) and write (2), with the answers to come as lists; Cndata is the
-- structure that tocnpwg puts before each page and tocanonij reads; Text holds C strings.
-- Common holds the shared numbers, tests, lists and C's signed integers.
--
-- Loops that are not on a list run on fuel: the length of the buffer for writing (each round takes a
-- byte or returns), the number of pixels for compressing (each round takes a pixel), the length of
-- the piece for `pwgRasterWritePixels` (each round takes a byte), the length of the file for its
-- lines (each takes a byte). The loops of tocanonij have their fuel as an argument, for one of them
-- need not end. The loop that forwards the raster has a round for each byte and each answer. A line
-- of a command file has a round for each byte asked for and one more, and a write to the printer one
-- for each answer and two more. A dump takes a round for each byte of the file at most, and for each
-- chunk one more than there are answers of the device to come. Elsewhere the fuel is never used up
-- before the work is done.
--
-- Not modelled: in lgmon3, the interfaces (cnijifusb, cnijifnet, cnijifnet2, the rest of cnijcomif), the texts
-- of the messages (keytext) and `main` up to `CNIF_Open`; in tocnpwg, the job settings (mkpset); in
-- rastertocanonij, the start of the shell; the backend cnijbe2. What the proprietary libraries under
-- com, the CUPS library, sscanf, the shell, the memory allocator and the floating point unit do is a parameter.
pub mod Canonij
pub mod Cndata
pub mod Common
pub mod Lgmon
pub mod Maintenance
pub mod Posix
pub mod Pwg
pub mod Text
pub mod Tocanonij
