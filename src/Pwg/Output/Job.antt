-- ===== src/Pwg/Output/Job.antt =====
-- What `main` leaves on standard output, page by page.
use cnijfilter.Common.{
  ℕ, suc, ◌+◌, ◌%◌, ◌^◌, ◌≡◌, refl, sym, ap, ◌∙◌, Bool, true, none, some, List, [], ◌∷◌, ◌++◌,
  append_assoc, append-nil, length, arith,
}
use cnijfilter.Pwg.PackBits.{Bytes}
use cnijfilter.Pwg.Device.{Device}
use cnijfilter.Posix.{write_once}
use cnijfilter.Cndata.{Layout}
use cnijfilter.Pwg.Raster.{Raster}
use cnijfilter.Pwg.Page.{done, failed}
use cnijfilter.Pwg.Create.{InPage, JobOptions}
use cnijfilter.Pwg.Output.{
  World, finished, stopped, data_buf_size, output_page, raster_dump, make_page, output_waiting,
  header_loop,
}
use cnijfilter.Pwg.Output.Dump.{raster_dump-Dumped}
use cnijfilter.Tocanonij.Pages.Stream.{Page, page_data, stream}

-- Standard output where it takes every byte.
abbrev pub output : (ℕ → Bool) → Bytes → Device
output grant bytes = record { bytes = bytes; answers = []; grant = grant }

-- The packet of a page: its `CNDATA` and its file.
abbrev pub packet : ℕ → ℕ → Bytes → Page
packet next_page page image = record {
  next_page = next_page;
  page_num = page % 2 ^ 16;
  image = image;
}

output_eq :
    (d : Device) (bytes : Bytes) (grant : ℕ → Bool)
    → d.bytes ≡ bytes
    → d.answers ≡ []
    → d.grant ≡ grant
    → d ≡ output grant bytes
output_eq d bytes grant b a g = λ i. record { bytes = b i; answers = a i; grant = g i }

output_page-stream :
    (layout : Layout) (r : Raster) (next_page page : ℕ) (grant : ℕ → Bool) (bytes : Bytes)
    → grant data_buf_size ≡ true
    → output_page layout r next_page page (output grant bytes)
      ≡ output grant (bytes ++ stream layout (packet next_page page r.device.bytes ∷ []))
unfolding output_page write_once stream page_data
output_page-stream layout r next_page page grant bytes roomy =
    let header = layout.print (page_data (packet next_page page r.device.bytes)) in
    let d = raster_dump-Dumped r (output grant (bytes ++ header)) roomy tt in
    output_eq (raster_dump r (output grant (bytes ++ header))).1 _ grant d.bytes (d.quiet refl)
      d.grant
    ∙ ap (output grant) (
        append_assoc bytes header r.device.bytes
        ∙ ap (λ c. bytes ++ (header ++ c)) (sym (append-nil r.device.bytes)))

pub stream-append :
    (layout : Layout) (xs ys : List Page)
    → stream layout (xs ++ ys) ≡ stream layout xs ++ stream layout ys
unfolding stream
stream-append layout [] ys = refl
stream-append layout (x ∷ xs) ys =
    let header = layout.print (page_data x) in
    ap (λ c. header ++ (x.image ++ c)) (stream-append layout xs ys)
    ∙ ap (λ c. header ++ c) (sym (append_assoc x.image (stream layout xs) (stream layout ys)))
    ∙ sym (append_assoc header (x.image ++ stream layout xs) (stream layout ys))

-- The packets of the rasters that were made from page `page` on. Each one carries the number that
-- `main` has reached when it goes out, and says that a page follows.
unfoldable pub followed : ℕ → List Raster → List Page
followed page [] = []
followed page (r ∷ rs) = packet 1 page r.device.bytes ∷ followed (page + 1) rs

-- The same, with a last packet that says that no page follows.
unfoldable pub closed : ℕ → List Raster → List Page
closed page [] = []
closed page (r ∷ []) = packet 0 page r.device.bytes ∷ []
closed page (r ∷ (s ∷ rs)) = packet 1 page r.device.bytes ∷ closed (page + 1) (s ∷ rs)

-- The pages, from page `page` on, are made as these rasters.
abbrev pub Made : World → JobOptions → ℕ → List InPage → List Raster → Type 0
Made w o page [] [] = Unit
Made w o page [] (r ∷ rs) = ⊥
Made w o page (p ∷ ps) [] = ⊥
Made w o page (p ∷ ps) (r ∷ rs) = (make_page w o page p ≡ done r) × Made w o (page + 1) ps rs

module _ (w : World) (o : JobOptions) (grant : ℕ → Bool) (roomy : grant data_buf_size ≡ true) where
  -- A page that waits goes out before the next one is made.
  header_loop-next :
      (page : ℕ) (r : Raster) (p : InPage) (ps : List InPage) (q : Raster) (bytes : Bytes)
      → make_page w o page p ≡ done q
      → header_loop w o page (some r) (output grant bytes) (p ∷ ps)
        ≡ header_loop w o
            (page + 1)
            (some q)
            (output grant (bytes ++ stream w.layout (packet 1 page r.device.bytes ∷ [])))
            ps
  unfolding header_loop output_waiting
  header_loop-next page r p ps q bytes m =
      rw (m, header_loop, output_page-stream w.layout r 1 page grant bytes roomy)

  stream-cons :
      (bytes : Bytes) (x : Page) (xs : List Page)
      → (bytes ++ stream w.layout (x ∷ [])) ++ stream w.layout xs
        ≡ bytes ++ stream w.layout (x ∷ xs)
  stream-cons bytes x xs =
      append_assoc bytes (stream w.layout (x ∷ [])) (stream w.layout xs)
      ∙ ap (λ c. bytes ++ c) (sym (stream-append w.layout (x ∷ []) xs))

  header_loop-closed :
      (page : ℕ) (r : Raster) (ps : List InPage) (rs : List Raster) (bytes : Bytes)
      → Made w o page ps rs
      → header_loop w o page (some r) (output grant bytes) ps
        ≡ finished (output grant (bytes ++ stream w.layout (closed page (r ∷ rs))))
  unfolding header_loop output_waiting closed
  header_loop-closed page r [] [] bytes m =
      ap finished (output_page-stream w.layout r 0 page grant bytes roomy)
  header_loop-closed page r [] (q ∷ rs) bytes m = absurd m
  header_loop-closed page r (p ∷ ps) [] bytes m = absurd m
  header_loop-closed page r (p ∷ ps) (q ∷ rs) bytes m =
      header_loop-next page r p ps q bytes m.0
      ∙ header_loop-closed (page + 1) q ps rs _ m.1
      ∙ ap (λ b. finished (output grant b))
          (stream-cons bytes (packet 1 page r.device.bytes) (closed (page + 1) (q ∷ rs)))

  header_loop-followed :
      (page : ℕ) (r : Raster) (ps : List InPage) (rs : List Raster) (bad : InPage)
      (more : List InPage) (q : Raster) (bytes : Bytes)
      → Made w o page ps rs
      → make_page w o (page + length ps) bad ≡ failed q
      → header_loop w o page (some r) (output grant bytes) (ps ++ (bad ∷ more))
        ≡ stopped (output grant (bytes ++ stream w.layout (followed page (r ∷ rs))))
  unfolding header_loop output_waiting followed
  header_loop-followed page r [] [] bad more q bytes m f =
      let e : page + 0 ≡ page = omega arith in
      let f' : make_page w o page bad ≡ failed q = ap (λ n. make_page w o n bad) (sym e) ∙ f in
      rw (f', header_loop) (ap stopped (output_page-stream w.layout r 1 page grant bytes roomy))
  header_loop-followed page r [] (s ∷ rs) bad more q bytes m f = absurd m
  header_loop-followed page r (p ∷ ps) [] bad more q bytes m f = absurd m
  header_loop-followed page r (p ∷ ps) (s ∷ rs) bad more q bytes m f =
      let e : (page + 1) + length ps ≡ page + suc (length ps) = omega arith in
      header_loop-next page r p (ps ++ (bad ∷ more)) s bytes m.0
      ∙ header_loop-followed (page + 1) s ps rs bad more q _ m.1
          (ap (λ n. make_page w o n bad) e ∙ f)
      ∙ ap (λ b. stopped (output grant b))
          (stream-cons bytes (packet 1 page r.device.bytes) (followed (page + 1) (s ∷ rs)))

  -- Where the loop makes a raster of every page, standard output takes every byte, and `malloc`
  -- grants the buffer of the dump, the loop finishes, and what it appends is a stream of packets, one for each page in their order: every one but the last says
  -- that a page follows, and each has the whole file of its page and the number that the page
  -- counter has when it goes out, which is one more than that of the page.
  pub header_loop-stream :
      (page : ℕ) (ps : List InPage) (rs : List Raster) (bytes : Bytes)
      → Made w o page ps rs
      → header_loop w o page none (output grant bytes) ps
        ≡ finished (output grant (bytes ++ stream w.layout (closed (page + 1) rs)))
  unfolding header_loop output_waiting closed stream
  header_loop-stream page [] [] bytes m =
      ap (λ b. finished (output grant b)) (sym (append-nil bytes))
  header_loop-stream page [] (r ∷ rs) bytes m = absurd m
  header_loop-stream page (p ∷ ps) [] bytes m = absurd m
  header_loop-stream page (p ∷ ps) (r ∷ rs) bytes m =
      rw (m.0, header_loop) (header_loop-closed (page + 1) r ps rs bytes m.1)

  -- Where a page cannot be made, but all the pages before it are, standard output takes every byte,
  -- and `malloc` grants the buffer of the dump: the job ends with an error after the packets of all
  -- the pages before it; every one of them, the last one too, says that a page follows.
  pub header_loop_failed :
      (page : ℕ) (ps : List InPage) (rs : List Raster) (bad : InPage) (more : List InPage)
      (q : Raster) (bytes : Bytes)
      → Made w o page ps rs
      → make_page w o (page + length ps) bad ≡ failed q
      → header_loop w o page none (output grant bytes) (ps ++ (bad ∷ more))
        ≡ stopped (output grant (bytes ++ stream w.layout (followed (page + 1) rs)))
  unfolding header_loop output_waiting followed stream
  header_loop_failed page [] [] bad more q bytes m f =
      let e : page + 0 ≡ page = omega arith in
      let f' : make_page w o page bad ≡ failed q = ap (λ n. make_page w o n bad) (sym e) ∙ f in
      rw (f', header_loop) (ap (λ b. stopped (output grant b)) (sym (append-nil bytes)))
  header_loop_failed page [] (r ∷ rs) bad more q bytes m f = absurd m
  header_loop_failed page (p ∷ ps) [] bad more q bytes m f = absurd m
  header_loop_failed page (p ∷ ps) (r ∷ rs) bad more q bytes m f =
      let e : (page + 1) + length ps ≡ page + suc (length ps) = omega arith in
      rw (m.0, header_loop)
        (header_loop-followed (page + 1) r ps rs bad more q bytes m.1
          (ap (λ n. make_page w o n bad) e ∙ f))
