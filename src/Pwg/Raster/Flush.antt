-- ===== src/Pwg/Raster/Flush.antt =====
-- `cups_raster_write` on a device that answers no error.
use cnijfilter.Common.{
  ℕ, suc, ◌-◌, ◌*◌, ◌%◌, ◌^◌, ◌≤◌, ◌≡◌, refl, ap, ◌∙◌, inl, inr, ◌++◌, ltb, Bool-cases, length, ℤ,
  pos, arith,
}
use cnijfilter.Pwg.PackBits.{Bytes}
use cnijfilter.Pwg.Device.{raster_io}
use cnijfilter.Pwg.Device.Laws.{IsSound, Sent, raster_io-Sent}
use cnijfilter.Pwg.Raster.{Raster, size_of_int, row_bytes, raster_write}

-- A row went out: the raster differs in its device, and perhaps in the size of its buffer.
pub record Flushed (r : Raster) (out : ℤ × Raster) : Type 0 where
  pub more : ℕ
  pub count : out.0 ≡ pos (suc more)
  pub sound : IsSound out.1.device
  pub file : out.1.device.bytes ≡ r.device.bytes ++ row_bytes r r.pixels
  pub keep : out.1 ≡ record r { device = out.1.device; bufsize = out.1.bufsize }

length-row_bytes : (r : Raster) (p : Bytes) → 1 ≤ length (row_bytes r p)
unfolding row_bytes
length-row_bytes r p = omega arith

pub raster_write-Flushed : (r : Raster) → IsSound r.device → Flushed r (raster_write r r.pixels)
unfolding raster_write
raster_write-Flushed r s = elim (Bool-cases (ltb r.bufsize size)) [
  | inl t ↦
      rw (t, s.roomy size)
        (record {
          more = m;
          count = sent.count ∙ ap pos (omega (arith, long));
          sound = sent.wrote.sound;
          file = sent.wrote.bytes;
          keep = refl;
        })
  | inr f ↦ rw f (record {
    more = m;
    count = sent.count ∙ ap pos (omega (arith, long));
    sound = sent.wrote.sound;
    file = sent.wrote.bytes;
    keep = refl;
  })
]
  where
    size : ℕ
    size = size_of_int (r.bytes_per_line * 2 % 2 ^ 32)

    sent : Sent r.device 0 (row_bytes r r.pixels) (raster_io r.device (row_bytes r r.pixels))
    sent = raster_io-Sent r.device (row_bytes r r.pixels) s

    m : ℕ
    m = length (row_bytes r r.pixels) - 1

    long : 1 ≤ length (row_bytes r r.pixels)
    long = length-row_bytes r r.pixels
