-- ===== src/Pwg/Raster/Step.antt =====
-- The rounds of `pwgRasterWritePixels`, on a device that answers no error: what was written so far
-- is the groups in the file, the repeated row that waits, and the begun row.
use cnijfilter.Common.{
  ℕ, suc, ◌+◌, ◌*◌, ◌/◌, ◌%◌, ◌≤◌, ◌<◌, ◌≡◌, refl, sym, ap, ◌∙◌, true, inl, inr, List, [], ◌∷◌,
  ◌++◌, leb, ◌==◌, if◌then◌else◌, Bool-cases, leb→le, leb-false, ==_iff, ==-ne, ◌≢◌, take-length,
  take, length, append_assoc, append-nil, All, All-append, ℤ, is_zero, arith,
}
use native.Mathlib.Nat.{mul-div_cancel}
use cnijfilter.Pwg.PackBits.{Bytes, pixels_of, encode_row}
use cnijfilter.Pwg.PackBits.Pixels.{concat-pixels_of, pixels_of-HasSize}
use cnijfilter.Pwg.Device.Laws.{IsSound}
use cnijfilter.Pwg.Raster.Pages.{
  flat, repeated, repeated-suc, repeated-zero, Group, IsGroup, group_code, expand, group_code-snoc,
  length-expand_snoc, flat-expand_snoc,
}
use cnijfilter.Pwg.Raster.{
  Raster, Round, return, next, row_bytes, raster_write, row_done, flush_last, flush,
}
use cnijfilter.Pwg.Raster.Flush.{Flushed, raster_write-Flushed}

-- The raster of a page of rows of `width` pixels with `bpp` bytes. The file held `base` before.
module _ (bpp width height : ℕ) (base : Bytes) where
  -- The fields that no round changes.
  pub record HasShape (r : Raster) : Type 0 where
    pub pixel : r.bpp ≡ bpp
    pub line : r.bytes_per_line ≡ width * bpp
    pub pend : r.pend ≡ width * bpp
    pub row : length r.pixels ≡ width * bpp
    pub packed : r.compressed ≡ true

  -- The file holds the code of `gs`, which stand for `rows`.
  pub record Holds (r : Raster) (gs : List Group) : Type 0 where
    pub sound : IsSound r.device
    pub groups : All (IsGroup bpp width) gs
    pub file : r.device.bytes ≡ base ++ group_code gs

  -- What was written, somewhere in a round: the row that waits is repeated, and the row after it
  -- has begun.
  pub record Ready (input : Bytes) (r : Raster) : Type 0 where
    pub gs : List Group
    pub holds : Holds r gs
    pub shape : HasShape r
    pub room : r.pcurrent ≤ width * bpp
    pub few : r.count ≤ 256
    pub tally : length (expand gs) + r.count + r.remaining ≡ height
    pub same : input ≡ flat (expand gs) ++ (repeated r.count r.pixels ++ take r.pcurrent r.pixels)

  -- Between two rounds.
  pub record Open (input : Bytes) (r : Raster) : Type 0 where
    pub ready : Ready input r
    pub room : r.pcurrent < width * bpp
    pub few : r.count < 256
    pub left : 1 ≤ r.remaining

  -- The page is complete.
  pub record Closed (input : Bytes) (r : Raster) : Type 0 where
    pub gs : List Group
    pub holds : Holds r gs
    pub tally : length (expand gs) ≡ height
    pub same : input ≡ flat (expand gs)

  abbrev pub Ends : Bytes → Round → Type 0
  Ends input (return n r) = Closed input r
  Ends input (next r) = Open input r

  -- The waiting row as a group of the file.
  waiting : Raster → Group
  waiting r = record { copies = r.count; row = pixels_of bpp width r.pixels }

  module _ (positive : 0 < bpp) (r : Raster) (gs : List Group) (h : Holds r gs) (s : HasShape r)
      (pending : 1 ≤ r.count) (few : r.count ≤ 256) where
    row_bytes-waiting :
        row_bytes r r.pixels ≡ (((waiting r).copies + 255) % 256) ∷ encode_row (waiting r).row
    unfolding waiting row_bytes
    row_bytes-waiting =
        let whole : r.bytes_per_line / r.bpp ≡ width =
          rw (s.line, s.pixel) (mul-div_cancel width positive) in
        rw (whole, s.pixel)

    waiting-IsGroup : IsGroup bpp width (waiting r)
    unfolding waiting
    waiting-IsGroup =
        let (sizes, long) = pixels_of-HasSize bpp width r.pixels s.row in
        record { some_copy = pending; bound = few; wide = long; sizes = sizes }

    Flushed-Holds : (out : ℤ × Raster) → Flushed r out → Holds out.1 (gs ++ (waiting r ∷ []))
    Flushed-Holds out f = record {
      sound = f.sound;
      groups = All-append (IsGroup bpp width) gs _ h.groups (waiting-IsGroup, tt);
      file =
          f.file
          ∙ ap (λ x. x ++ row_bytes r r.pixels) h.file
          ∙ append_assoc base (group_code gs) (row_bytes r r.pixels)
          ∙ ap (λ x. base ++ x) (rw row_bytes-waiting (sym (group_code-snoc gs (waiting r))));
    }

    length-expand-waiting : length (expand (gs ++ (waiting r ∷ []))) ≡ length (expand gs) + r.count
    unfolding waiting
    length-expand-waiting = length-expand_snoc gs (waiting r)

    flat-expand-waiting :
        flat (expand (gs ++ (waiting r ∷ []))) ≡ flat (expand gs) ++ repeated r.count r.pixels
    unfolding waiting
    flat-expand-waiting =
        flat-expand_snoc gs (waiting r)
        ∙ ap (λ x. flat (expand gs) ++ repeated r.count x)
            (concat-pixels_of bpp width r.pixels s.row)

  -- What `flush` leaves where it goes on.
  pub record Emptied (r : Raster) (input : Bytes) : Type 0 where
    pub after : Raster
    pub ends : flush r ≡ next after
    pub ready : Ready input after
    pub keep : after ≡ record r { device = after.device; bufsize = after.bufsize; count = 0 }

  module _ (positive : 0 < bpp) {input : Bytes} {r : Raster} (ready : Ready input r)
      (pending : 1 ≤ r.count) where
    group_out : Holds (raster_write r r.pixels).1 (ready.gs ++ (waiting r ∷ []))
    group_out =
        Flushed-Holds positive r ready.gs ready.holds ready.shape pending ready.few
          (raster_write r r.pixels) (raster_write-Flushed r ready.holds.sound)

    rows_out : length (expand (ready.gs ++ (waiting r ∷ []))) ≡ length (expand ready.gs) + r.count
    rows_out = length-expand-waiting positive r ready.gs ready.holds ready.shape pending ready.few

    bytes_out :
        flat (expand (ready.gs ++ (waiting r ∷ [])))
        ≡ flat (expand ready.gs) ++ repeated r.count r.pixels
    bytes_out = flat-expand-waiting positive r ready.gs ready.holds ready.shape pending ready.few

    pub flush-Emptied : Emptied r input
    unfolding flush is_zero
    flush-Emptied = record {
      after = after;
      ends = ground (arith, f.count) ∙ ap (λ x. next (record x { count = 0 })) f.keep;
      ready = record {
        gs = ready.gs ++ (waiting r ∷ []);
        holds = record {
          sound = group_out.sound;
          groups = group_out.groups;
          file = group_out.file;
        };
        shape = record {
          pixel = ready.shape.pixel;
          line = ready.shape.line;
          pend = ready.shape.pend;
          packed = ready.shape.packed;
          row = ready.shape.row;
        };
        room = ready.room;
        few = omega arith;
        tally = omega (arith, rows_out, ready.tally);
        same =
            ready.same
            ∙ sym (append_assoc (flat (expand ready.gs)) _ _)
            ∙ ap (λ x. x ++ take r.pcurrent r.pixels) (sym bytes_out)
            ∙ rw (repeated-zero r.pixels);
      };
      keep = refl;
    }
      where
        f : Flushed r (raster_write r r.pixels)
        f = raster_write-Flushed r ready.holds.sound

        after : Raster
        after =
            let out = (raster_write r r.pixels).1 in
            record r { device = out.device; bufsize = out.bufsize; count = 0 }

    flush_last-Closed : r.pcurrent ≡ 0 → r.remaining ≡ 0 → Ends input (flush_last r)
    unfolding flush_last
    flush_last-Closed start end = record {
      gs = ready.gs ++ (waiting r ∷ []);
      holds = group_out;
      tally = omega (arith, rows_out, ready.tally);
      same =
          ready.same
          ∙ ap (λ n. flat (expand ready.gs) ++ (repeated r.count r.pixels ++ take n r.pixels)) start
          ∙ ap (λ x. flat (expand ready.gs) ++ x) (append-nil (repeated r.count r.pixels))
          ∙ sym bytes_out;
    }

  -- A row is full: it joins the rows that wait.
  row_done-Ready :
      {input : Bytes} {r : Raster}
      → Ready input r
      → r.pcurrent ≡ width * bpp
      → r.count < 256
      → 1 ≤ r.remaining
      → Ready input (row_done r)
  unfolding row_done
  row_done-Ready {input} {r} ready full few left = record {
    gs = ready.gs;
    holds = record {
      sound = ready.holds.sound;
      groups = ready.holds.groups;
      file = ready.holds.file;
    };
    shape = record {
      pixel = ready.shape.pixel;
      line = ready.shape.line;
      pend = ready.shape.pend;
      packed = ready.shape.packed;
      row = ready.shape.row;
    };
    room = omega arith;
    few = omega arith;
    tally = omega (arith, ready.tally);
    same =
        ready.same
        ∙ ap (λ n. flat (expand ready.gs) ++ (repeated r.count r.pixels ++ take n r.pixels))
            (full ∙ sym ready.shape.row)
        ∙ ap (λ x. flat (expand ready.gs) ++ (repeated r.count r.pixels ++ x))
            (take-length r.pixels)
        ∙ ap (λ x. flat (expand ready.gs) ++ x)
            (sym (repeated-suc r.count r.pixels)
              ∙ ap (λ n. repeated n r.pixels) one_more
              ∙ sym (append-nil _));
  }
    where
      one_more : suc r.count ≡ r.count + 1
      one_more = omega arith

  -- The end of a round that has moved `pcurrent`.
  module _ (positive : 0 < bpp) (wide : 0 < width * bpp) {input : Bytes} {r : Raster}
      (ready : Ready input r) (few : r.count < 256) (left : 1 ≤ r.remaining) where
    moved-Open : r.pcurrent < width * bpp → Open input r
    moved-Open h = record { ready = ready; room = h; few = few; left = left }

    done-Ready : r.pcurrent ≡ width * bpp → Ready input (row_done r)
    done-Ready full = row_done-Ready ready full few left

    module _ (full : r.pcurrent ≡ width * bpp) where
      last_row : (row_done r).remaining ≡ 0 → Ends input (flush_last (row_done r))
      unfolding row_done
      last_row end = flush_last-Closed positive (done-Ready full) (omega arith) refl end

      next_row : (row_done r).remaining ≢ 0 → (row_done r).count ≢ 256 → Open input (row_done r)
      unfolding row_done
      next_row more room = record {
        ready = done-Ready full;
        room = wide;
        few = omega arith;
        left = omega arith;
      }

      full_group : (row_done r).remaining ≢ 0 → Ends input (flush (row_done r))
      unfolding row_done
      full_group more =
          let e = flush-Emptied positive (done-Ready full) (omega arith) in
          rw e.ends (record {
            ready = e.ready;
            room = rw e.keep wide;
            few = rw e.keep (omega arith);
            left = rw e.keep (omega arith);
          })

      same_full : Ends input (
          if (row_done r).remaining == 0
          then flush_last (row_done r)
          else if (row_done r).count == 256
          then flush (row_done r)
          else next (row_done r))
      same_full = elim (Bool-cases ((row_done r).remaining == 0)) [
        | inl t ↦ rw t (last_row ((==_iff _ 0).0 t))
        | inr f ↦ rw f (elim (Bool-cases ((row_done r).count == 256)) [
          | inl t ↦ rw t (full_group (==-ne f))
          | inr g ↦ rw g (next_row (==-ne f) (==-ne g))
        ])
      ]

      copy_full :
          r.count ≡ 0
          → Ends input
              (if (row_done r).remaining == 0 then flush_last (row_done r) else next (row_done r))
      copy_full none_yet = elim (Bool-cases ((row_done r).remaining == 0)) [
        | inl t ↦ rw t (last_row ((==_iff _ 0).0 t))
        | inr f ↦ rw f (next_row (==-ne f) (unfold row_done in omega arith))
      ]

    pub same_end : Ends input (
        if leb r.pend r.pcurrent
        then (if (row_done r).remaining == 0
            then flush_last (row_done r)
            else if (row_done r).count == 256
            then flush (row_done r)
            else next (row_done r))
        else next r)
    same_end = elim (Bool-cases (leb r.pend r.pcurrent)) [
      | inl t ↦ rw t (same_full (omega (arith, leb→le _ _ t, ready.shape.pend, ready.room)))
      | inr f ↦ rw f (moved-Open (omega (arith, leb-false _ _ f, ready.shape.pend)))
    ]

    pub copy_end :
        r.count ≡ 0
        → Ends input (
            if leb r.pend r.pcurrent
            then (if (row_done r).remaining == 0
                then flush_last (row_done r)
                else next (row_done r))
            else next r)
    copy_end none_yet = elim (Bool-cases (leb r.pend r.pcurrent)) [
      | inl t ↦
          rw t (copy_full (omega (arith, leb→le _ _ t, ready.shape.pend, ready.room)) none_yet)
      | inr f ↦ rw f (moved-Open (omega (arith, leb-false _ _ f, ready.shape.pend)))
    ]
