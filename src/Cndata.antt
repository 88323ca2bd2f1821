-- ===== src/Cndata.antt =====
-- cndata_def.h, in tocnpwg/src and in tocanonij/src: what tocnpwg puts before each page.
pub mod Cells
use cnijfilter.Common.{ℕ, ◌≡◌, ◌<◌, length, ℤ}
use cnijfilter.Pwg.PackBits.{Bytes}

-- MAGIC_NUMBER_FOR_CNIJPWG
abbrev pub magic_number_for_cnijpwg : ℕ
magic_number_for_cnijpwg = 0x12340001

-- `CNDATA`, without its reserve.
pub record CnData : Type 0 where
  pub magic_num : ℕ
  pub image_size : ℤ
  pub next_page : ℕ
  pub page_num : ℕ

-- The bytes of the structure in memory, which both programs share, being compiled alike.
pub record Layout : Type 0 where
  pub size : ℕ
  pub print : CnData → Bytes
  pub parse : Bytes → CnData
  pub some_size : 0 < size
  pub length-print : (c : CnData) → length (print c) ≡ size
  pub parse-print : (c : CnData) → parse (print c) ≡ c
