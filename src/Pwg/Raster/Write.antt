-- ===== src/Pwg/Raster/Write.antt =====
-- `pwgRasterWritePixels` on a whole page: the rows that a reader of the file gets are the bytes
-- that were written, in whatever pieces they came.
use cnijfilter.Common.{
  ℕ, zero, suc, ◌+◌, ◌-◌, ◌*◌, ◌≤◌, ◌<◌, ◌≡◌, sym, ap, ◌∙◌, subst, min, true, inl, inr, ◌⊎◌, List,
  [], ◌∷◌, ◌++◌, some, take, drop, length, append_assoc, append-nil, length-append, length-drop,
  length-take, take-append-drop, nil_of_length, All, arith,
}
use native.Mathlib.Nat.{mul-le-mul_right, mul-pos}
use cnijfilter.Pwg.PackBits.{Bytes, Pixel}
use cnijfilter.Pwg.PackBits.Decode.{decode_page}
use cnijfilter.Pwg.Device.Laws.{IsSound}
use cnijfilter.Pwg.Raster.Pages.{
  IsFitting, expand-IsFitting, flat, repeated, group_code, expand, length-flat-expand,
  length-repeated, decode_page-group_code, repeated_none,
}
use cnijfilter.Pwg.Raster.Step.{HasShape, Open, Closed, Ends}
use cnijfilter.Pwg.Raster.Piece.{write_piece-Ends}
use cnijfilter.Pwg.Raster.{Raster, Round, return, next, write_piece, write_loop, write_pixels}

-- The calls of a page, one after the other: their results are not looked at.
unfoldable pub write_all : Raster → List Bytes → Raster
write_all r [] = r
write_all r (p ∷ ps) = write_all (write_pixels r p).1 ps

unfoldable pub joined : List Bytes → Bytes
joined [] = []
joined (p ∷ ps) = p ++ joined ps

write_pixels-loop :
    (r : Raster) (p : Bytes)
    → 1 ≤ r.remaining
    → r.compressed ≡ true
    → write_pixels r p ≡ write_loop (length p) (length p) r p
unfolding write_pixels
write_pixels-loop r p h e = ground arith

-- A call with no bytes does nothing.
write_pixels-nil : (r : Raster) → (write_pixels r []).1 ≡ r
unfolding write_pixels write_loop
write_pixels-nil r = ground arith

module _ (bpp width height : ℕ) (base : Bytes) (positive : 0 < bpp) (wide : 0 < width * bpp) where
  abbrev Outcome : Bytes → Raster → Type 0
  Outcome input r = Open bpp width height base input r ⊎ Closed bpp width height base input r

  -- Between two rounds the page is not complete.
  Open-short :
      {input : Bytes} {r : Raster}
      → Open bpp width height base input r
      → length input < height * (width * bpp)
  Open-short {input} {r} o =
      let g = o.ready in
      let rows = length (expand g.gs) in
      let full = length-flat-expand bpp width g.gs g.holds.groups in
      let row : length r.pixels ≡ width * bpp = g.shape.row in
      let parts =
        length-append (flat (expand g.gs))
          (repeated r.count r.pixels ++ take r.pcurrent r.pixels) in
      let parts' = length-append (repeated r.count r.pixels) (take r.pcurrent r.pixels) in
      let waits = length-repeated r.count r.pixels in
      omega (
        arith,
        ap length g.same,
        full,
        row,
        parts,
        parts',
        waits,
        ap (λ n. r.count * n) row,
        length-take r.pcurrent r.pixels,
        o.room,
        ap (λ n. n * (width * bpp)) g.tally,
        mul-le-mul_right (width * bpp) o.left,
      )

  Closed-full :
      {input : Bytes} {r : Raster}
      → Closed bpp width height base input r
      → length input ≡ height * (width * bpp)
  Closed-full {input} {r} c = omega (
    arith,
    ap length c.same,
    length-flat-expand bpp width c.gs c.holds.groups,
    ap (λ n. n * (width * bpp)) c.tally,
  )

  -- What the loop makes of the end of a round.
  round_Outcome :
      (input : Bytes) (fuel len : ℕ) (piece rest : Bytes) (round : Round)
      → length input + (length piece + length rest) ≤ height * (width * bpp)
      → Ends bpp width height base (input ++ piece) round
      → ((r : Raster)
          → Open bpp width height base (input ++ piece) r
          → Outcome ((input ++ piece) ++ rest) (write_loop fuel len r rest).1)
      → Outcome (input ++ (piece ++ rest)) (
          let out : ℕ × Raster = elim round [
            | return n r ↦ (n, r)
            | next r ↦ write_loop fuel len r rest
          ] in
          out.1)
  round_Outcome input fuel len piece rest (return n r) l e more =
      let none_left : rest ≡ [] =
        nil_of_length rest (omega (arith, Closed-full e, length-append input piece)) in
      inr (
        subst (λ x. Closed bpp width height base (input ++ x) r)
          (sym (append-nil piece) ∙ ap (λ x. piece ++ x) (sym none_left)) e)
  round_Outcome input fuel len piece rest (next r) l e more =
      subst (λ x. Outcome x (write_loop fuel len r rest).1) (append_assoc input piece rest)
        (more r e)

  write_loop-Outcome :
      (fuel len : ℕ) {input : Bytes} {r : Raster} (p : Bytes)
      → Open bpp width height base input r
      → length p ≤ fuel
      → length input + length p ≤ height * (width * bpp)
      → Outcome (input ++ p) (write_loop fuel len r p).1
  unfolding write_loop
  write_loop-Outcome zero len [] o h l = inl (rw append-nil o)
  write_loop-Outcome (suc fuel) len [] o h l = inl (rw append-nil o)
  write_loop-Outcome zero len (b ∷ p) o h l = absurd (omega arith)
  write_loop-Outcome (suc fuel) len {input} {r} (b ∷ p) o h l =
      let whole = take-append-drop n (b ∷ p) in
      let piece = take n (b ∷ p) in
      let rest = drop n (b ∷ p) in
      subst (λ x. Outcome (input ++ x) (write_loop (suc fuel) len r (b ∷ p)).1) whole
        (round_Outcome input fuel len piece rest (write_piece r piece)
          (omega (arith, l, long, left))
          (write_piece-Ends bpp width height base positive wide o piece
            (omega (arith, long, o.ready.shape.pend, o.room)))
          (λ r' o'.
            write_loop-Outcome fuel len rest o' (omega (arith, left, some_byte))
              (omega (arith, l, long, left, length-append input piece))))
    where
      n : ℕ
      n = min (length (b ∷ p)) (r.pend - r.pcurrent)

      long : length (take n (b ∷ p)) ≡ n
      long = omega (arith, length-take n (b ∷ p))

      left : length (drop n (b ∷ p)) ≡ length (b ∷ p) - n
      left = length-drop n (b ∷ p)

      some_byte : 1 ≤ n
      some_byte = omega (arith, o.ready.shape.pend, o.room)

  write_pixels-Outcome :
      {input : Bytes} {r : Raster} (p : Bytes)
      → Open bpp width height base input r
      → length input + length p ≤ height * (width * bpp)
      → Outcome (input ++ p) (write_pixels r p).1
  write_pixels-Outcome {input} {r} p o l =
      rw (write_pixels-loop r p o.left o.ready.shape.packed)
        (write_loop-Outcome (length p) (length p) p o (omega arith) l)

  write_all-Outcome :
      (ps : List Bytes) (input : Bytes) (r : Raster)
      → Outcome input r
      → length input + length (joined ps) ≤ height * (width * bpp)
      → Outcome (input ++ joined ps) (write_all r ps)
  unfolding write_all joined
  write_all-Outcome [] input r o l = rw append-nil o
  write_all-Outcome (p ∷ ps) input r (inl o) l =
      subst (λ x. Outcome x (write_all (write_pixels r p).1 ps)) (append_assoc input p (joined ps))
        (write_all-Outcome ps (input ++ p) (write_pixels r p).1
          (write_pixels-Outcome p o (omega (arith, l, length-append p (joined ps))))
          (omega (arith, l, length-append p (joined ps), length-append input p)))
  write_all-Outcome (p ∷ ps) input r (inr c) l =
      let empty : p ≡ [] =
        nil_of_length p (omega (arith, l, length-append p (joined ps), Closed-full c)) in
      rw (empty, write_pixels-nil r)
        (write_all-Outcome ps input r (inr c) (omega (arith, l, length-append p (joined ps))))

-- A raster at the start of a page, as `pwgraster_update` leaves it.
pub record IsFresh (bpp width height : ℕ) (r : Raster) : Type 0 where
  pub sound : IsSound r.device
  pub shape : HasShape bpp width height r.device.bytes r
  pub none_waits : r.count ≡ 0
  pub start : r.pcurrent ≡ 0
  pub rows : r.remaining ≡ height

module _ (bpp width height : ℕ) (r : Raster) (positive : 0 < bpp) (wide : 0 < width) where
  area : 0 < width * bpp
  area = mul-pos wide positive

  -- Nothing is written yet.
  IsFresh-Open : 0 < height → IsFresh bpp width height r → Open bpp width height r.device.bytes [] r
  unfolding group_code expand flat
  IsFresh-Open tall f = record {
    ready = record {
      gs = [];
      holds = record { sound = f.sound; groups = tt; file = sym (append-nil r.device.bytes) };
      shape = f.shape;
      room = omega (arith, f.start);
      few = omega (arith, f.none_waits);
      tally = omega (arith, f.none_waits, f.rows);
      same = sym (
          ap (λ n. repeated r.count r.pixels ++ take n r.pixels) f.start
          ∙ append-nil (repeated r.count r.pixels)
          ∙ repeated_none r.pixels f.none_waits);
    };
    room = omega (arith, f.start, area);
    few = omega (arith, f.none_waits);
    left = omega (arith, f.rows);
  }

-- The page is written: a reader of the format gets its rows.
pub record PageCode (bpp width height : ℕ) (start end input rest : Bytes) : Type 0 where
  pub code : Bytes
  pub rows : List (List Pixel)
  pub file : end ≡ start ++ code
  pub reads : decode_page height bpp width height (code ++ rest) ≡ some (rows, rest)
  pub bytes : flat rows ≡ input
  pub fitting : 2 ≤ width * bpp → All (IsFitting bpp width) rows

module _ (bpp width height : ℕ) (r : Raster) (pieces : List Bytes) (rest : Bytes)
    (positive : 0 < bpp) (wide : 0 < width) where
  Closed-PageCode :
      {input : Bytes} {r' : Raster}
      → Closed bpp width height r.device.bytes input r'
      → PageCode bpp width height r.device.bytes r'.device.bytes input rest
  Closed-PageCode c = record {
    code = group_code c.gs;
    rows = expand c.gs;
    file = c.holds.file;
    reads =
        subst (λ h. decode_page h bpp width h (group_code c.gs ++ rest) ≡ some (expand c.gs, rest))
          c.tally (decode_page-group_code bpp width _ c.gs rest c.holds.groups (omega arith));
    bytes = sym c.same;
    fitting = λ h. expand-IsFitting bpp width c.gs positive h c.holds.groups;
  }

  write_all-PageCode :
      0 < height
      → IsFresh bpp width height r
      → length (joined pieces) ≡ height * (width * bpp)
      → PageCode bpp width height r.device.bytes
          (write_all r pieces).device.bytes
          (joined pieces)
          rest
  write_all-PageCode tall f l = page (
      write_all-Outcome bpp width height r.device.bytes positive
        (area bpp width height r positive wide) pieces [] r
        (inl (IsFresh-Open bpp width height r positive wide tall f)) (omega (arith, l)))
    where
      page :
          Open bpp width height r.device.bytes (joined pieces) (write_all r pieces)
            ⊎ Closed bpp width height r.device.bytes (joined pieces) (write_all r pieces)
          → PageCode bpp width height r.device.bytes
              (write_all r pieces).device.bytes
              (joined pieces)
              rest
      page (inl o) = absurd (
          omega (
            arith,
            l,
            Open-short bpp width height r.device.bytes positive
                (area bpp width height r positive wide) o,
          ))
      page (inr c) = Closed-PageCode c

-- The code of a page, for rows of any length.
pub page_of_pieces :
    (bpp width height : ℕ) (r : Raster) (pieces : List Bytes) (rest : Bytes)
    → 0 < bpp
    → 0 < width
    → 0 < height
    → IsFresh bpp width height r
    → length (joined pieces) ≡ height * (width * bpp)
    → (code : Bytes) × (rows : List (List Pixel)) × ((write_all r pieces).device.bytes
        ≡ r.device.bytes ++ code)
      × (decode_page height bpp width height (code ++ rest) ≡ some (rows, rest))
      × (flat rows ≡ joined pieces)
page_of_pieces bpp width height r pieces rest positive wide tall f l =
    let p = write_all-PageCode bpp width height r pieces rest positive wide tall f l in
    (p.code, p.rows, p.file, p.reads, p.bytes)

-- On a page that is not over-full the device keeps answering no error.
pub write_all-IsSound :
    (bpp width height : ℕ) (r : Raster) (pieces : List Bytes)
    → 0 < bpp
    → 0 < width
    → 0 < height
    → IsFresh bpp width height r
    → length (joined pieces) ≤ height * (width * bpp)
    → IsSound (write_all r pieces).device
write_all-IsSound bpp width height r pieces positive wide tall f l = sound (
    write_all-Outcome bpp width height r.device.bytes positive
      (area bpp width height r positive wide) pieces [] r
      (inl (IsFresh-Open bpp width height r positive wide tall f)) (omega (arith, l)))
  where
    sound :
        Open bpp width height r.device.bytes (joined pieces) (write_all r pieces)
          ⊎ Closed bpp width height r.device.bytes (joined pieces) (write_all r pieces)
        → IsSound (write_all r pieces).device
    sound (inl o) = o.ready.holds.sound
    sound (inr c) = c.holds.sound
