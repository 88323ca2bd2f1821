-- ===== src/Tocanonij/Names/Tables.antt =====
-- tocanonij/include/cncl/cncl_paramtbl.h, with the numbers of cnclcmdutilsdef.h: the tables of names.
use cnijfilter.Common.{List, [], ◌∷◌}
use cnijfilter.Text.{codes}
use cnijfilter.Tocanonij.Names.{MapTbl}

-- `mediatypeTbl`, without its end mark
abbrev pub mediatype_tbl : List MapTbl
mediatype_tbl =
    record { opt_name = codes "plain"; opt_num = 1 }
    ∷ record { opt_name = codes "glossygold"; opt_num = 2 }
    ∷ record { opt_name = codes "photopaperpro2"; opt_num = 3 }
    ∷ record { opt_name = codes "proplatinum"; opt_num = 5 }
    ∷ record { opt_name = codes "photopaperpro"; opt_num = 6 }
    ∷ record { opt_name = codes "superphoto"; opt_num = 7 }
    ∷ record { opt_name = codes "luster"; opt_num = 8 }
    ∷ record { opt_name = codes "semigloss"; opt_num = 9 }
    ∷ record { opt_name = codes "glossypaper"; opt_num = 10 }
    ∷ record { opt_name = codes "matte"; opt_num = 11 }
    ∷ record { opt_name = codes "photopaper"; opt_num = 12 }
    ∷ record { opt_name = codes "envelope"; opt_num = 17 }
    ∷ record { opt_name = codes "ijpostcard"; opt_num = 13 }
    ∷ record { opt_name = codes "postcard"; opt_num = 14 }
    ∷ record { opt_name = codes "label"; opt_num = 18 }
    ∷ record { opt_name = codes "highres"; opt_num = 15 }
    ∷ record { opt_name = codes "photo"; opt_num = 16 }
    ∷ []

-- `papersizeTbl`, without its end mark
abbrev pub papersize_tbl : List MapTbl
papersize_tbl =
    record { opt_name = codes "Letter"; opt_num = 1 }
    ∷ record { opt_name = codes "Letter.bl"; opt_num = 1 }
    ∷ record { opt_name = codes "legal"; opt_num = 2 }
    ∷ record { opt_name = codes "executive"; opt_num = 22 }
    ∷ record { opt_name = codes "a6"; opt_num = 23 }
    ∷ record { opt_name = codes "A5"; opt_num = 3 }
    ∷ record { opt_name = codes "A4"; opt_num = 4 }
    ∷ record { opt_name = codes "A4.bl"; opt_num = 4 }
    ∷ record { opt_name = codes "A3"; opt_num = 5 }
    ∷ record { opt_name = codes "A3.bl"; opt_num = 5 }
    ∷ record { opt_name = codes "a3plus"; opt_num = 6 }
    ∷ record { opt_name = codes "a3plus.bl"; opt_num = 6 }
    ∷ record { opt_name = codes "B5"; opt_num = 7 }
    ∷ record { opt_name = codes "B4"; opt_num = 8 }
    ∷ record { opt_name = codes "oficio"; opt_num = 24 }
    ∷ record { opt_name = codes "boficio"; opt_num = 25 }
    ∷ record { opt_name = codes "moficio"; opt_num = 26 }
    ∷ record { opt_name = codes "foolscap"; opt_num = 27 }
    ∷ record { opt_name = codes "legalindia"; opt_num = 28 }
    ∷ record { opt_name = codes "4x6"; opt_num = 9 }
    ∷ record { opt_name = codes "4x6.bl"; opt_num = 9 }
    ∷ record { opt_name = codes "5x7"; opt_num = 10 }
    ∷ record { opt_name = codes "5x7.bl"; opt_num = 10 }
    ∷ record { opt_name = codes "8x10"; opt_num = 11 }
    ∷ record { opt_name = codes "8x10.bl"; opt_num = 11 }
    ∷ record { opt_name = codes "10x12"; opt_num = 12 }
    ∷ record { opt_name = codes "10x12.bl"; opt_num = 12 }
    ∷ record { opt_name = codes "l"; opt_num = 14 }
    ∷ record { opt_name = codes "l.bl"; opt_num = 14 }
    ∷ record { opt_name = codes "2l"; opt_num = 15 }
    ∷ record { opt_name = codes "2l.bl"; opt_num = 15 }
    ∷ record { opt_name = codes "Postcard"; opt_num = 16 }
    ∷ record { opt_name = codes "Postcard.bl"; opt_num = 16 }
    ∷ record { opt_name = codes "envelop10p"; opt_num = 20 }
    ∷ record { opt_name = codes "envelopdlp"; opt_num = 21 }
    ∷ record { opt_name = codes "businesscard"; opt_num = 18 }
    ∷ record { opt_name = codes "businesscard.bl"; opt_num = 18 }
    ∷ record { opt_name = codes "square127"; opt_num = 29 }
    ∷ record { opt_name = codes "square127.bl"; opt_num = 29 }
    ∷ []

-- `colormodeTbl`, without its end mark
abbrev pub colormode_tbl : List MapTbl
colormode_tbl =
    record { opt_name = codes "true"; opt_num = 2 }
    ∷ record { opt_name = codes "false"; opt_num = 1 }
    ∷ []

-- `duplexprintTbl`, without its end mark
abbrev pub duplexprint_tbl : List MapTbl
duplexprint_tbl =
    record { opt_name = codes "none"; opt_num = 1 }
    ∷ record { opt_name = codes "duplextumble"; opt_num = 2 }
    ∷ record { opt_name = codes "duplexnotumble"; opt_num = 2 }
    ∷ []
