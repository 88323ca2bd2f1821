-- ===== src/Pwg/Raster/Piece.antt =====
-- One round of `pwgRasterWritePixels` adds its bytes to what was written.
use cnijfilter.Common.{
  ℕ, ◌+◌, ◌*◌, ◌≤◌, ◌<◌, ◌≡◌, sym, ap, ◌∙◌, inl, inr, ◌++◌, ltb, Bool-cases, ltb→lt, ltb-false,
  take, drop, length, append_assoc, length-append, length-drop, length-take, take-add,
  take-append_length, arith,
}
use cnijfilter.Pwg.PackBits.{Bytes, same_bytes}
use cnijfilter.Pwg.PackBits.RoundTrip.{same_bytes→eq}
use cnijfilter.Pwg.Raster.Pages.{flat, repeated, expand, repeated_none}
use cnijfilter.Pwg.Raster.Step.{Ready, Open, Ends, flush-Emptied, same_end, copy_end}
use cnijfilter.Pwg.Raster.{Raster, next, flush, same_piece, copy_piece, other_piece, write_piece}

regroup : (f r t p : Bytes) → (f ++ (r ++ t)) ++ p ≡ f ++ (r ++ (t ++ p))
regroup f r t p = simp append_assoc

other_piece-next :
    (r after : Raster) (piece : Bytes)
    → flush r ≡ next after
    → other_piece r piece ≡ copy_piece after piece
unfolding other_piece
other_piece-next r after piece h = rw (h, other_piece)

module _ (bpp width height : ℕ) (base : Bytes) (positive : 0 < bpp) (wide : 0 < width * bpp) where
  module _ {input : Bytes} {r : Raster} (o : Open bpp width height base input r) (piece : Bytes)
      (fits : r.pcurrent + length piece ≤ width * bpp) where
    same_piece-Ends :
        piece ≡ take (length piece) (drop r.pcurrent r.pixels)
        → Ends bpp width height base (input ++ piece) (same_piece r piece)
    unfolding same_piece
    same_piece-Ends e = same_end bpp width height base positive wide moved o.few o.left
      where
        r1 : Raster
        r1 = record r { pcurrent = r.pcurrent + length piece }

        moved : Ready bpp width height base (input ++ piece) r1
        moved = record {
          gs = o.ready.gs;
          holds = record {
            sound = o.ready.holds.sound;
            groups = o.ready.holds.groups;
            file = o.ready.holds.file;
          };
          shape = record {
            pixel = o.ready.shape.pixel;
            line = o.ready.shape.line;
            pend = o.ready.shape.pend;
            packed = o.ready.shape.packed;
            row = o.ready.shape.row;
          };
          room = fits;
          few = o.ready.few;
          tally = o.ready.tally;
          same =
              ap (λ x. x ++ piece) o.ready.same
              ∙ regroup (flat (expand o.ready.gs)) (repeated r.count r.pixels)
                  (take r.pcurrent r.pixels) piece
              ∙ ap (λ x. flat (expand o.ready.gs) ++ (repeated r.count r.pixels ++ x))
                  (ap (λ x. take r.pcurrent r.pixels ++ x) e
                    ∙ sym (take-add r.pcurrent (length piece) r.pixels));
        }

    copy_piece-Ends : r.count ≡ 0 → Ends bpp width height base (input ++ piece) (copy_piece r piece)
    unfolding copy_piece
    copy_piece-Ends e = copy_end bpp width height base positive wide moved o.few o.left e
      where
        begun : Bytes
        begun = take r.pcurrent r.pixels ++ piece

        behind : Bytes
        behind = drop (r.pcurrent + length piece) r.pixels

        long : length begun ≡ r.pcurrent + length piece
        long = omega (
          arith,
          length-append (take r.pcurrent r.pixels) piece,
          length-take r.pcurrent r.pixels,
          o.ready.shape.row,
        )

        r1 : Raster
        r1 = record r {
          pixels = take r.pcurrent r.pixels ++ piece ++ drop (r.pcurrent + length piece) r.pixels;
          pcurrent = r.pcurrent + length piece;
        }

        moved : Ready bpp width height base (input ++ piece) r1
        moved = record {
          gs = o.ready.gs;
          holds = record {
            sound = o.ready.holds.sound;
            groups = o.ready.holds.groups;
            file = o.ready.holds.file;
          };
          shape = record {
            pixel = o.ready.shape.pixel;
            line = o.ready.shape.line;
            pend = o.ready.shape.pend;
            packed = o.ready.shape.packed;
            row =
                length-append begun behind
                ∙ omega (
                  arith,
                  long,
                  length-drop (r.pcurrent + length piece) r.pixels,
                  o.ready.shape.row,
                );
          };
          room = fits;
          few = o.ready.few;
          tally = o.ready.tally;
          same =
              ap (λ x. x ++ piece) o.ready.same
              ∙ regroup (flat (expand o.ready.gs)) (repeated r.count r.pixels)
                  (take r.pcurrent r.pixels) piece
              ∙ ap (λ x. flat (expand o.ready.gs) ++ (x ++ (take r.pcurrent r.pixels ++ piece)))
                  (repeated_none r.pixels e ∙ sym (repeated_none r1.pixels e))
              ∙ ap (λ x. flat (expand o.ready.gs) ++ (repeated r.count r1.pixels ++ x))
                  (sym (take-append_length (r.pcurrent + length piece) begun behind long));
        }

  -- A round leaves the raster between rounds, or the page complete, with the bytes added.
  module _ {input : Bytes} {r : Raster} (o : Open bpp width height base input r) (piece : Bytes)
      (fits : r.pcurrent + length piece ≤ width * bpp) where
    other_piece-Ends :
        1 ≤ r.count → Ends bpp width height base (input ++ piece) (other_piece r piece)
    other_piece-Ends pending =
        let e = flush-Emptied bpp width height base positive o.ready pending in
        rw (other_piece-next r e.after piece e.ends) (
          copy_piece-Ends
            (record {
              ready = e.ready;
              room = rw e.keep o.room;
              few = rw e.keep (omega arith);
              left = rw e.keep o.left;
            })
            piece (rw e.keep fits) (rw e.keep))

    pub write_piece-Ends : Ends bpp width height base (input ++ piece) (write_piece r piece)
    unfolding write_piece
    write_piece-Ends = elim (Bool-cases (ltb 0 r.count)) [
      | inl t ↦
          rw t
            (elim (Bool-cases (same_bytes piece (take (length piece) (drop r.pcurrent r.pixels)))) [
              | inl e ↦ rw e (same_piece-Ends o piece fits (same_bytes→eq _ _ e))
              | inr n ↦ rw n (other_piece-Ends (omega (arith, ltb→lt 0 r.count t)))
            ])
      | inr f ↦ rw f (copy_piece-Ends o piece fits (omega (arith, ltb-false 0 r.count f)))
    ]
