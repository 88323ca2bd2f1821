-- ===== src/Cndata/Cells.antt =====
-- A concrete layout of `CNDATA`, for runs of the filters.
use cnijfilter.Common.{ℕ, zero, suc, ◌≡◌, refl, [], ◌∷◌, ℤ, pos, negsuc, arith}
use cnijfilter.Pwg.PackBits.{Bytes}
use cnijfilter.Cndata.{CnData, Layout}

-- A layout of five cells, the size in two of them.
abbrev image_size_of : ℕ → ℕ → ℤ
image_size_of zero n = pos n
image_size_of (suc s) n = negsuc n

abbrev sign_of : ℤ → ℕ
sign_of (pos n) = 0
sign_of (negsuc n) = 1

abbrev part_of : ℤ → ℕ
part_of (pos n) = n
part_of (negsuc n) = n

abbrev print_cells : CnData → Bytes
print_cells c =
    c.magic_num ∷ sign_of c.image_size ∷ part_of c.image_size ∷ c.next_page ∷ c.page_num ∷ []

abbrev parse_cells : Bytes → CnData
parse_cells (m ∷ s ∷ n ∷ next ∷ page ∷ rest) = record {
  magic_num = m;
  image_size = image_size_of s n;
  next_page = next;
  page_num = page;
}
parse_cells bytes = record { magic_num = 0; image_size = pos 0; next_page = 0; page_num = 0 }

image_size_back : (z : ℤ) → image_size_of (sign_of z) (part_of z) ≡ z
image_size_back (pos n) = refl
image_size_back (negsuc n) = refl

pub cells_back : (c : CnData) → parse_cells (print_cells c) ≡ c
cells_back c = λ i. record c { image_size = image_size_back c.image_size i }

abbrev pub cells : Layout
cells = record {
  size = 5;
  print = print_cells;
  parse = parse_cells;
  some_size = omega arith;
  length-print = λ c. refl;
  parse-print = cells_back;
}
