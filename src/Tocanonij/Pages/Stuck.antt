-- ===== src/Tocanonij/Pages/Stuck.antt =====
-- An image that is cut off, and a write that a signal interrupts.
use cnijfilter.Common.{
  ℕ, zero, suc, ◌+◌, ◌-◌, ◌≤◌, ◌≡◌, refl, sym, ap, ap₂, ◌∙◌, min, Bool, true, List, [], ◌∷◌, take,
  drop, length, append-nil, take-nil, drop-nil, take-length, nil_of_length, length-drop, arith,
}
use cnijfilter.Pwg.PackBits.{Bytes}
use cnijfilter.Pwg.Device.{Device, Answer, interrupted}
use cnijfilter.Posix.{write_once, Source, got, read_once}
use cnijfilter.Tocanonij.Pages.{Io, done, running, write_chunk, copy_image}

-- An input whose reads get all they ask for, and an output with the answers to come.
abbrev pub plain : Bytes → List Answer → (ℕ → Bool) → Bytes → Io
plain input answers grant out = record {
  input = record { bytes = input; answers = [] };
  output = record { bytes = out; answers = answers; grant = grant };
}

-- A round that reads and writes a chunk.
copy_round :
    (fuel buf n : ℕ) (io : Io) (chunk : Bytes) (source : Source) (d : Device)
    → read_once io.input (min (suc n) buf) ≡ (got chunk, source)
    → write_chunk (length chunk + 1) io.output chunk ≡ (true, d)
    → copy_image (suc fuel) buf (suc n) io
      ≡ copy_image fuel buf (suc n - length chunk) (record { input = source; output = d })
unfolding copy_image
copy_round fuel buf n io chunk source d e w =
    rw (first, copy_image, ok)
      (ap₂ (λ s o. copy_image fuel buf (suc n - length chunk) (record { input = s; output = o }))
        (ap (λ r. r.1) e) (ap (λ r. r.1) w))
  where
    first : (read_once io.input (min (suc n) buf)).0 ≡ got chunk
    first = ap (λ r. r.0) e

    ok : (write_chunk (length chunk + 1) io.output chunk).0 ≡ true
    ok = ap (λ r. r.0) w

-- Where the input ends inside an image and the output takes what it gets, the loop over the image
-- goes on for ever: it has not ended after any number of rounds.
pub copy_image_cut_off :
    (fuel buf missing : ℕ) (out : Bytes) (grant : ℕ → Bool)
    → copy_image fuel buf (suc missing) (plain [] [] grant out) ≡ running (plain [] [] grant out)
unfolding copy_image read_once write_chunk write_once
copy_image_cut_off zero buf missing out grant = refl
copy_image_cut_off (suc fuel) buf missing out grant =
    let all : suc missing ≡ suc missing - 0 = omega arith in
    copy_round fuel buf missing (plain [] [] grant out) [] _ _
      (λ i. (
        got (take-nil (min (suc missing) buf) i),
        record { bytes = drop-nil (min (suc missing) buf) i; answers = [] },
      ))
      (λ i. (true, record { bytes = append-nil out i; answers = []; grant = grant }))
    ∙ ap (λ n. copy_image fuel buf n (plain [] [] grant out)) (sym all)
    ∙ copy_image_cut_off fuel buf missing out grant

-- Where a signal interrupts the write of a chunk, no byte of the chunk goes out, and the loop takes
-- the chunk for written.
pub write_chunk_interrupted :
    (fuel : ℕ) (more : List Answer) (out chunk : Bytes) (grant : ℕ → Bool)
    → write_chunk
        (suc fuel)
        (record { bytes = out; answers = interrupted ∷ more; grant = grant })
        chunk
      ≡ (true, record { bytes = out; answers = more; grant = grant })
unfolding write_chunk write_once
write_chunk_interrupted fuel more out chunk grant = refl

-- So the page loses these bytes: a signal at the first write of an image that one read brings ends
-- the loop well, with nothing written.
pub copy_image_interrupted :
    (fuel buf : ℕ) (more : List Answer) (out : Bytes) (b : ℕ) (image : Bytes) (grant : ℕ → Bool)
    → suc (length image) ≤ buf
    → copy_image
        (suc fuel)
        buf
        (suc (length image))
        (plain (b ∷ image) (interrupted ∷ more) grant out)
      ≡ done (plain [] more grant out)
unfolding copy_image read_once write_chunk write_once
copy_image_interrupted fuel buf more out b image grant h =
    copy_round fuel buf (length image) (plain (b ∷ image) (interrupted ∷ more) grant out)
      (b ∷ image) (record { bytes = []; answers = [] }) _
      (λ i. (got (read.0 i), record { bytes = read.1 i; answers = [] }))
      (ap
        (λ n.
          write_chunk n (record { bytes = out; answers = interrupted ∷ more; grant = grant })
            (b ∷ image))
        fuels)
    ∙ ap (λ n. copy_image fuel buf n (plain [] more grant out)) none_left
  where
    m : min (suc (length image)) buf ≡ suc (length image)
    m = omega (arith, h)

    fuels : suc (length image) + 1 ≡ suc (suc (length image))
    fuels = omega arith

    none_left : suc (length image) - suc (length image) ≡ 0
    none_left = omega arith

    read :
        (take (min (suc (length image)) buf) (b ∷ image) ≡ b ∷ image)
        × (drop (min (suc (length image)) buf) (b ∷ image) ≡ [])
    read = (
      ap (λ k. take k (b ∷ image)) m ∙ take-length (b ∷ image),
      ap (λ k. drop k (b ∷ image)) m
          ∙ nil_of_length (drop (length image) image)
              (omega (arith, length-drop (length image) image)),
    )
