-- ===== src/Tocanonij/Pages/Copy.antt =====
-- The inner loops: an image goes through whole, whatever the sizes of the reads and writes.
use cnijfilter.Common.{
  ℕ, zero, suc, ◌+◌, ◌-◌, ◌≤◌, ◌<◌, ◌≡◌, refl, sym, ap, ◌∙◌, subst, min, Bool, true, false, List,
  [], ◌∷◌, ◌++◌, take, drop, length, All, append_assoc, append-nil, nil_of_length, take-append-drop,
  length-drop, length-take, length-append, take-append_le, drop-append_le, arith,
}
use cnijfilter.Pwg.PackBits.{Bytes}
use cnijfilter.Pwg.Device.{Device, Answer, taken, interrupted, again, refused}
use cnijfilter.Posix.{write_once, ReadAnswer, offers, read_interrupted, read_refused, read_once}
use cnijfilter.Tocanonij.Pages.{Io, Ending, done, failed, write_chunk, copy_image}

-- An answer that takes a byte at least.
abbrev pub IsShort : Answer → Type 0
IsShort (taken n) = 0 < n
IsShort interrupted = ⊥
IsShort again = ⊥
IsShort refused = ⊥

-- An answer that offers `size` bytes at least, or is interrupted.
abbrev pub IsSteady : ℕ → ReadAnswer → Type 0
IsSteady size (offers n) = size ≤ n
IsSteady size read_interrupted = Unit
IsSteady size read_refused = ⊥

-- The chunk went out.
pub record Chunk (d : Device) (chunk : Bytes) (r : Bool × Device) : Type 0 where
  pub ok : r.0 ≡ true
  pub bytes : r.1.bytes ≡ d.bytes ++ chunk
  pub short : All IsShort r.1.answers
  pub quiet : d.answers ≡ [] → r.1.answers ≡ []

write_chunk-quiet :
    (fuel : ℕ) (bytes chunk : Bytes) (grant : ℕ → Bool)
    → length chunk < fuel
    → write_chunk fuel (record { bytes = bytes; answers = []; grant = grant }) chunk
      ≡ (true, record { bytes = bytes ++ chunk; answers = []; grant = grant })
unfolding write_chunk write_once
write_chunk-quiet zero bytes chunk grant h = absurd (omega arith)
write_chunk-quiet (suc fuel) bytes [] grant h = refl
write_chunk-quiet (suc fuel) bytes (b ∷ chunk) grant h =
    ap
      (λ c.
        write_chunk fuel (record { bytes = bytes ++ (b ∷ chunk); answers = []; grant = grant }) c)
      (nil_of_length (drop (length chunk) chunk) (omega (arith, length-drop (length chunk) chunk)))
    ∙ write_chunk-quiet fuel (bytes ++ (b ∷ chunk)) [] grant (omega arith)
    ∙ ap (λ bs. (true, record { bytes = bs; answers = []; grant = grant }))
        (append-nil (bytes ++ (b ∷ chunk)))

-- A write of the first `k` bytes, and the rounds after it.
write_part :
    (fuel k n : ℕ) (more : List Answer) (bytes chunk : Bytes) (grant : ℕ → Bool)
    → All IsShort more
    → k ≤ length chunk
    → (k ≡ 0 → length chunk ≡ 0)
    → (0 < k
        → Chunk
            (record { bytes = bytes ++ take k chunk; answers = more; grant = grant })
            (drop k chunk)
            (write_chunk fuel
              (record { bytes = bytes ++ take k chunk; answers = more; grant = grant })
              (drop k chunk)))
    → Chunk
        (record { bytes = bytes; answers = taken n ∷ more; grant = grant })
        chunk
        (elim k as (λ x. Bool × Device) [
          | zero ↦ (true, record { bytes = bytes ++ take k chunk; answers = more; grant = grant })
          | suc j ↦
              write_chunk fuel
                (record { bytes = bytes ++ take k chunk; answers = more; grant = grant })
                (drop (suc j) chunk)
        ])
write_part fuel zero n more bytes chunk grant s h z ih = record {
  ok = refl;
  bytes = ap (λ c. bytes ++ c) (sym (nil_of_length chunk (z refl)));
  short = s;
  quiet = λ e. cc;
}
write_part fuel (suc k) n more bytes chunk grant s h z ih =
    let c = ih (omega arith) in
    record {
      ok = c.ok;
      bytes =
          c.bytes
          ∙ append_assoc bytes (take (suc k) chunk) (drop (suc k) chunk)
          ∙ ap (λ c. bytes ++ c) (take-append-drop (suc k) chunk);
      short = c.short;
      quiet = λ e. cc;
    }

pub write_chunk-Chunk :
    (fuel : ℕ) (answers : List Answer) (bytes chunk : Bytes) (grant : ℕ → Bool)
    → All IsShort answers
    → length chunk < fuel
    → Chunk
        (record { bytes = bytes; answers = answers; grant = grant })
        chunk
        (write_chunk fuel (record { bytes = bytes; answers = answers; grant = grant }) chunk)
unfolding write_chunk write_once
write_chunk-Chunk zero answers bytes chunk grant s h = absurd (omega arith)
write_chunk-Chunk (suc fuel) [] bytes chunk grant s h =
    subst (Chunk _ chunk) (sym (write_chunk-quiet (suc fuel) bytes chunk grant h))
      (record { ok = refl; bytes = refl; short = tt; quiet = λ e. refl })
write_chunk-Chunk (suc fuel) (taken zero ∷ more) bytes chunk grant s h = absurd (omega arith)
write_chunk-Chunk (suc fuel) (taken (suc n) ∷ more) bytes chunk grant s h =
    write_part fuel (min (suc n) (length chunk)) (suc n) more bytes chunk grant s.1 (omega arith)
      (λ e. omega arith)
      (λ p.
        write_chunk-Chunk fuel more (bytes ++ take (min (suc n) (length chunk)) chunk)
          (drop (min (suc n) (length chunk)) chunk) grant s.1
          (omega (arith, length-drop (min (suc n) (length chunk)) chunk)))
write_chunk-Chunk (suc fuel) (interrupted ∷ more) bytes chunk grant s h = absurd s.0
write_chunk-Chunk (suc fuel) (again ∷ more) bytes chunk grant s h = absurd s.0
write_chunk-Chunk (suc fuel) (refused ∷ more) bytes chunk grant s h = absurd s.0

-- The image went from the input to the output.
pub record Copied (size : ℕ) (io : Io) (image rest : Bytes) (e : Ending) : Type 0 where
  pub end : Io
  pub is_done : e ≡ done end
  pub left : end.input.bytes ≡ rest
  pub steady : All (IsSteady size) end.input.answers
  pub fewer : length end.input.answers ≤ length io.input.answers
  pub written : end.output.bytes ≡ io.output.bytes ++ image
  pub short : All IsShort end.output.answers
  pub quiet : io.output.answers ≡ [] → end.output.answers ≡ []

-- A chunk that was read goes out, and the rest follows.
after_read :
    (size fuel buf m : ℕ) (answers more : List ReadAnswer) (image rest : Bytes) (d : Device)
    (r : Bool × Device)
    → m ≤ length image
    → length more ≤ length answers
    → Chunk d (take m (image ++ rest)) r
    → Copied size
        (record { input = record { bytes = drop m (image ++ rest); answers = more }; output = r.1 })
        (drop m image)
        rest
        (copy_image fuel buf (length (drop m image)) (record {
          input = record { bytes = drop m (image ++ rest); answers = more };
          output = r.1;
        }))
    → Copied size
        (record { input = record { bytes = image ++ rest; answers = answers }; output = d })
        image
        rest
        (elim r.0 as (λ x. Ending) [
          | true ↦ copy_image fuel buf (length image - length (take m (image ++ rest))) (record {
            input = record { bytes = drop m (image ++ rest); answers = more };
            output = r.1;
          })
          | false ↦ failed (record {
            input = record { bytes = drop m (image ++ rest); answers = more };
            output = r.1;
          })
        ])
after_read size fuel buf m answers more image rest d r h l c k = rw c.ok (record {
  end = k.end;
  is_done =
      ap
        (λ n. copy_image fuel buf n (record {
          input = record { bytes = drop m (image ++ rest); answers = more };
          output = r.1;
        }))
        count
      ∙ k.is_done;
  left = k.left;
  steady = k.steady;
  fewer = omega (arith, k.fewer, l);
  written =
      k.written
      ∙ ap (λ b. b ++ drop m image) c.bytes
      ∙ append_assoc d.bytes (take m (image ++ rest)) (drop m image)
      ∙ ap (λ b. d.bytes ++ (b ++ drop m image)) (take-append_le m image rest h)
      ∙ ap (λ b. d.bytes ++ b) (take-append-drop m image);
  short = k.short;
  quiet = λ e. k.quiet (c.quiet e);
})
  where
    count : length image - length (take m (image ++ rest)) ≡ length (drop m image)
    count =
        omega
          (arith, h, length-drop m image, length-take m (image ++ rest), length-append image rest)

-- A chunk of `m` bytes of the image was offered: it goes out, and the image after it.
copy_offer :
    (size fuel buf m : ℕ) (answers more : List ReadAnswer) (image rest : Bytes) (d : Device)
    → m ≤ length image
    → length more ≤ length answers
    → All IsShort d.answers
    → ((d' : Device)
        → All IsShort d'.answers
        → Copied size
            (record {
              input = record { bytes = drop m image ++ rest; answers = more };
              output = d';
            })
            (drop m image)
            rest
            (copy_image fuel buf (length (drop m image)) (record {
              input = record { bytes = drop m image ++ rest; answers = more };
              output = d';
            })))
    → Copied size
        (record { input = record { bytes = image ++ rest; answers = answers }; output = d })
        image
        rest
        (elim (write_chunk (length (take m (image ++ rest)) + 1) d (take m (image ++ rest))).0
          as (λ x. Ending) [
            | true ↦ copy_image fuel buf (length image - length (take m (image ++ rest))) (record {
              input = record { bytes = drop m (image ++ rest); answers = more };
              output =
                  (write_chunk (length (take m (image ++ rest)) + 1) d (take m (image ++ rest))).1;
            })
            | false ↦ failed (record {
              input = record { bytes = drop m (image ++ rest); answers = more };
              output =
                  (write_chunk (length (take m (image ++ rest)) + 1) d (take m (image ++ rest))).1;
            })
          ])
copy_offer size fuel buf m answers more image rest d h l s ih =
    after_read size fuel buf m answers more image rest d _ h l c (
      subst
        (λ b.
          Copied size (record { input = record { bytes = b; answers = more }; output = r.1 })
            (drop m image) rest
            (copy_image fuel buf (length (drop m image))
              (record { input = record { bytes = b; answers = more }; output = r.1 })))
        (sym (drop-append_le m image rest h)) (ih r.1 c.short))
  where
    r : Bool × Device
    r = write_chunk (length (take m (image ++ rest)) + 1) d (take m (image ++ rest))

    c : Chunk d (take m (image ++ rest)) r
    c =
        write_chunk-Chunk (length (take m (image ++ rest)) + 1) d.answers d.bytes
          (take m (image ++ rest)) d.grant s (omega arith)

pub copy_image-Copied :
    (size fuel buf : ℕ) (answers : List ReadAnswer) (image rest : Bytes) (d : Device)
    → 0 < size
    → 0 < buf
    → All (IsSteady size) answers
    → All IsShort d.answers
    → length image + length answers ≤ fuel
    → Copied size
        (record { input = record { bytes = image ++ rest; answers = answers }; output = d })
        image
        rest
        (copy_image fuel buf
          (length image)
          (record { input = record { bytes = image ++ rest; answers = answers }; output = d }))
unfolding copy_image read_once
copy_image-Copied size fuel buf answers [] rest d ps pb s h l = record {
  end = record { input = record { bytes = rest; answers = answers }; output = d };
  is_done = refl;
  left = refl;
  steady = s;
  fewer = omega arith;
  written = sym (append-nil d.bytes);
  short = h;
  quiet = λ e. e;
}
copy_image-Copied size zero buf answers (b ∷ image) rest d ps pb s h l = absurd (omega arith)
copy_image-Copied size (suc fuel) buf [] (b ∷ image) rest d ps pb s h l =
    copy_offer size fuel buf (min (suc (length image)) buf) [] [] (b ∷ image) rest d (omega arith)
      (omega arith) h
      (λ d' h'.
        copy_image-Copied size fuel buf [] (drop (min (suc (length image)) buf) (b ∷ image)) rest d'
          ps pb tt h' (omega (arith, length-drop (min (suc (length image)) buf) (b ∷ image))))
copy_image-Copied size (suc fuel) buf (offers k ∷ more) (b ∷ image) rest d ps pb s h l =
    copy_offer size fuel buf (min k (min (suc (length image)) buf)) (offers k ∷ more) more
      (b ∷ image) rest d (omega arith) (omega arith) h
      (λ d' h'.
        copy_image-Copied size fuel buf more
          (drop (min k (min (suc (length image)) buf)) (b ∷ image)) rest d' ps pb s.1 h'
          (omega (arith, length-drop (min k (min (suc (length image)) buf)) (b ∷ image))))
copy_image-Copied size (suc fuel) buf (read_interrupted ∷ more) (b ∷ image) rest d ps pb s h l =
    let k = copy_image-Copied size fuel buf more (b ∷ image) rest d ps pb s.1 h (omega arith) in
    record {
      end = k.end;
      is_done = k.is_done;
      left = k.left;
      steady = k.steady;
      fewer = omega (arith, k.fewer);
      written = k.written;
      short = k.short;
      quiet = k.quiet;
    }
copy_image-Copied size (suc fuel) buf (read_refused ∷ more) (b ∷ image) rest d ps pb s h l =
    absurd s.0
