-- ===== src/Canonij/Forward/Whole.antt =====
-- The raster goes through whole, however the reads and the writes are split or interrupted; and a
-- signal cuts it at some place.
use cnijfilter.Common.{
  ℕ, zero, suc, ◌+◌, ◌≤◌, ◌<◌, ◌⊎◌, ◌-◌, ◌≡◌, refl, sym, ap, ◌∙◌, subst, min, Bool, true, none,
  some, List, [], ◌∷◌, ◌++◌, take, drop, take-nil, length, All, append_assoc, append-nil,
  nil_of_length, take-append-drop, length-drop, Bool-cases, inl, inr, if◌then◌else◌, arith,
}
use cnijfilter.Pwg.PackBits.{Bytes}
use cnijfilter.Pwg.Device.{Device, Answer, taken, interrupted, again, refused}
use cnijfilter.Pwg.Output.Dump.{IsPatient}
use cnijfilter.Posix.{
  write_once, Source, ReadAnswer, offers, read_interrupted, read_refused, read_once,
}
use cnijfilter.Canonij.Forward.{
  pipe_buf_size, Polls, poll, later, after_one, Forwarded, forward_rest, forward_chunk, forward,
  forward_all,
}

-- The beginning of the bytes went out, with no error, and all of them, unless the signal is there.
pub record Kept (polls : Polls) (d : Device) (chunk : Bytes) (f : Forwarded) : Type 0 where
  pub ok : f.ok ≡ true
  pub rest : Bytes
  pub bytes : f.pipe.bytes ++ rest ≡ d.bytes ++ chunk
  pub patient : All IsPatient f.pipe.answers
  pub cut : (rest ≡ []) ⊎ (f.polls ≡ some 0)
  pub silent : polls ≡ none → f.polls ≡ none

later_quiet : (polls : Polls) → polls ≡ none → later polls ≡ none
later_quiet none h = refl
later_quiet (some n) h = cc

later_signalled : (polls : Polls) → poll polls ≡ true → later polls ≡ some 0
later_signalled none h = cc
later_signalled (some zero) h = refl
later_signalled (some (suc n)) h = cc

abbrev pipe_of : Bytes → List Answer → (ℕ → Bool) → Device
pipe_of bytes answers grant = record { bytes = bytes; answers = answers; grant = grant }

-- The loop ends at its test: nothing is left, or a signal came.
Kept-end :
    (polls : Polls) (d : Device) (chunk : Bytes)
    → All IsPatient d.answers
    → (chunk ≡ []) ⊎ (later polls ≡ some 0)
    → Kept polls d chunk (record { ok = true; polls = later polls; pipe = d })
Kept-end polls d chunk p e = record {
  ok = refl;
  rest = chunk;
  bytes = refl;
  patient = p;
  cut = e;
  silent = later_quiet polls;
}

-- A round, before a loop that keeps the rest.
Kept-step :
    (polls : Polls) (d d' : Device) (chunk part after : Bytes) (f : Forwarded)
    → part ++ after ≡ chunk
    → d'.bytes ≡ d.bytes ++ part
    → Kept (later polls) d' after f
    → Kept polls d chunk f
Kept-step polls d d' chunk part after f e w k = record {
  ok = k.ok;
  rest = k.rest;
  bytes =
      k.bytes ∙ ap (λ b. b ++ after) w ∙ append_assoc d.bytes part after ∙ ap (λ b. d.bytes ++ b) e;
  patient = k.patient;
  cut = k.cut;
  silent = λ s. k.silent (later_quiet polls s);
}

-- A round behind the test.
Kept-test :
    (polls : Polls) (d : Device) (chunk : Bytes) (f : Forwarded)
    → All IsPatient d.answers
    → Kept polls d chunk f
    → Kept polls d chunk
        (if poll polls then record { ok = true; polls = later polls; pipe = d } else f)
Kept-test polls d chunk f p k = elim (Bool-cases (poll polls)) [
  | inl t ↦ rw t (Kept-end polls d chunk p (inr (later_signalled polls t)))
  | inr t ↦ rw t k
]

forward_rest_nil :
    (fuel : ℕ) (polls : Polls) (d : Device)
    → 0 < fuel
    → All IsPatient d.answers
    → Kept polls d [] (forward_rest fuel polls d [])
unfolding forward_rest
forward_rest_nil zero polls d h p = absurd (omega arith)
forward_rest_nil (suc fuel) polls d h p = Kept-end polls d [] p (inl refl)

forward_rest-Kept :
    (fuel : ℕ) (polls : Polls) (answers : List Answer) (bytes chunk : Bytes) (grant : ℕ → Bool)
    → length answers + 2 ≤ fuel
    → All IsPatient answers
    → Kept polls
        (pipe_of bytes answers grant)
        chunk
        (forward_rest fuel polls (pipe_of bytes answers grant) chunk)
unfolding forward_rest write_once
forward_rest-Kept zero polls answers bytes chunk grant h p = absurd (omega arith)
forward_rest-Kept (suc fuel) polls answers bytes [] grant h p =
    forward_rest_nil (suc fuel) polls (pipe_of bytes answers grant) (omega arith) p
forward_rest-Kept (suc fuel) polls [] bytes (b ∷ chunk) grant h p =
    let all = b ∷ chunk in
    let left : drop (length all) all ≡ [] =
      nil_of_length (drop (length all) all) (length-drop (length all) all ∙ omega arith) in
    let d' = pipe_of (bytes ++ all) [] grant in
    Kept-test polls (pipe_of bytes [] grant) all _ p (
      Kept-step polls (pipe_of bytes [] grant) d' all all [] _ (append-nil all) refl (
        subst (λ c. Kept (later polls) d' [] (forward_rest fuel (later polls) d' c)) (sym left)
          (forward_rest_nil fuel (later polls) d' (omega arith) tt)))
forward_rest-Kept (suc fuel) polls (taken n ∷ more) bytes (b ∷ chunk) grant h p =
    let all = b ∷ chunk in
    let k = min n (length all) in
    let d' = pipe_of (bytes ++ take k all) more grant in
    Kept-test polls (pipe_of bytes (taken n ∷ more) grant) all _ p (
      Kept-step polls (pipe_of bytes (taken n ∷ more) grant) d' all (take k all) (drop k all) _
        (take-append-drop k all) refl
        (forward_rest-Kept fuel (later polls) more (bytes ++ take k all) (drop k all) grant
          (omega arith) p.1))
forward_rest-Kept (suc fuel) polls (interrupted ∷ more) bytes (b ∷ chunk) grant h p =
    let all = b ∷ chunk in
    Kept-test polls (pipe_of bytes (interrupted ∷ more) grant) all _ p (
      Kept-step polls (pipe_of bytes (interrupted ∷ more) grant) (pipe_of bytes more grant) all []
        all _ refl (sym (append-nil bytes))
        (forward_rest-Kept fuel (later polls) more bytes all grant (omega arith) p.1))
forward_rest-Kept (suc fuel) polls (again ∷ more) bytes (b ∷ chunk) grant h p = absurd p.0
forward_rest-Kept (suc fuel) polls (refused ∷ more) bytes (b ∷ chunk) grant h p = absurd p.0

-- A read that brings a byte at least, or is interrupted.
abbrev pub IsOffer : ReadAnswer → Type 0
IsOffer (offers n) = 0 < n
IsOffer read_interrupted = Unit
IsOffer read_refused = ⊥

-- Where the signal is there, the outer loop ends.
forward_signalled :
    (fuel : ℕ) (input : Source) (d : Device)
    → 0 < fuel
    → forward fuel (some 0) input d ≡ record { ok = true; polls = some 0; pipe = d }
unfolding forward
forward_signalled zero input d h = absurd (omega arith)
forward_signalled (suc fuel) input d h = refl

later-after_one : (polls : Polls) → later (after_one polls) ≡ polls
later-after_one none = refl
later-after_one (some n) = refl

after_one_quiet : (polls : Polls) → polls ≡ none → after_one polls ≡ none
after_one_quiet none h = refl
after_one_quiet (some n) h = cc

-- What the outer loop makes of a chunk and the rest of the input.
abbrev continued : ℕ → Polls → Source → Device → Bytes → Forwarded
continued fuel polls input d chunk =
    let f = forward_chunk (later polls) d chunk in
    let next = forward fuel f.polls input f.pipe in if f.ok then next else f

Kept-chunk :
    (polls : Polls) (d : Device) (b : ℕ) (chunk after : Bytes) (fuel : ℕ) (input : Source)
    → All IsPatient d.answers
    → 0 < fuel
    → ((f : Forwarded)
        → All IsPatient f.pipe.answers
        → Kept f.polls f.pipe after (forward fuel f.polls input f.pipe))
    → Kept polls d ((b ∷ chunk) ++ after) (continued fuel polls input d (b ∷ chunk))
unfolding forward_chunk
Kept-chunk polls d b chunk after fuel input p h ih = rw k.ok (elim k.cut [
  | inl e ↦
      let n = ih f k.patient in
      record {
        ok = n.ok;
        rest = n.rest;
        bytes =
            n.bytes
            ∙ ap (λ x. x ++ after)
                (sym (append-nil f.pipe.bytes) ∙ ap (λ r. f.pipe.bytes ++ r) (sym e) ∙ k.bytes)
            ∙ append_assoc d.bytes (b ∷ chunk) after;
        patient = n.patient;
        cut = n.cut;
        silent = λ s. n.silent (k.silent (after_one_quiet (later polls) (later_quiet polls s)));
      }
  | inr e ↦
      let ends : forward fuel f.polls input f.pipe
          ≡ record { ok = true; polls = some 0; pipe = f.pipe } =
        ap (λ q. forward fuel q input f.pipe) e ∙ forward_signalled fuel input f.pipe h in
      rw ends (record {
        ok = refl;
        rest = k.rest ++ after;
        bytes =
            sym (append_assoc f.pipe.bytes k.rest after)
            ∙ ap (λ x. x ++ after) k.bytes
            ∙ append_assoc d.bytes (b ∷ chunk) after;
        patient = k.patient;
        cut = inr refl;
        silent = λ s. sym e ∙ k.silent (after_one_quiet (later polls) (later_quiet polls s));
      })
])
  where
    f : Forwarded
    f = forward_chunk (later polls) d (b ∷ chunk)

    k : Kept (after_one (later polls)) d (b ∷ chunk) f
    k =
        forward_rest-Kept (length d.answers + 2) (after_one (later polls)) d.answers d.bytes
          (b ∷ chunk) d.grant (omega arith) p

forward-Kept :
    (fuel : ℕ) (polls : Polls) (answers : List ReadAnswer) (bytes : Bytes) (d : Device)
    → length bytes + length answers < fuel
    → All IsOffer answers
    → All IsPatient d.answers
    → Kept polls d bytes (forward fuel polls (record { bytes = bytes; answers = answers }) d)
unfolding forward read_once
forward-Kept zero polls answers bytes d h a p = absurd (omega arith)
forward-Kept (suc fuel) polls [] [] d h a p =
    Kept-test polls d [] _ p (Kept-end polls d [] p (inl refl))
forward-Kept (suc fuel) polls [] (b ∷ bytes) d h a p =
    let all = b ∷ bytes in
    let input : Source = record { bytes = drop pipe_buf_size all; answers = [] } in
    let result = continued fuel polls input d (b ∷ take (pipe_buf_size - 1) bytes) in
    Kept-test polls d all result p (
      subst (λ x. Kept polls d x result) (take-append-drop pipe_buf_size all)
        (Kept-chunk polls d b (take (pipe_buf_size - 1) bytes) (drop pipe_buf_size all) fuel input p
          (omega arith)
          (λ f q.
            forward-Kept fuel f.polls [] (drop pipe_buf_size all) f.pipe
              (omega (arith, length-drop pipe_buf_size all)) tt q)))
forward-Kept (suc fuel) polls (offers zero ∷ more) bytes d h a p = absurd (omega arith)
forward-Kept (suc fuel) polls (offers (suc k) ∷ more) [] d h a p =
    rw (take-nil {A = ℕ} (min (suc k) pipe_buf_size), forward)
      (Kept-test polls d [] _ p (Kept-end polls d [] p (inl refl)))
forward-Kept (suc fuel) polls (offers (suc k) ∷ more) (b ∷ bytes) d h a p =
    let all = b ∷ bytes in
    let m = min k (pipe_buf_size - 1) in
    let e : min (suc k) pipe_buf_size ≡ suc m = omega arith in
    let input : Source = record { bytes = drop m bytes; answers = more } in
    let result = continued fuel polls input d (b ∷ take m bytes) in
    rw (e, forward, read_once, e)
      (Kept-test polls d all result p (
        subst (λ x. Kept polls d x result) (take-append-drop (suc m) all)
          (Kept-chunk polls d b (take m bytes) (drop m bytes) fuel input p (omega arith) (λ f q.
            forward-Kept fuel f.polls more (drop m bytes) f.pipe
              (omega (arith, h, length-drop m bytes)) a.1 q))))
forward-Kept (suc fuel) polls (read_interrupted ∷ more) bytes d h a p =
    Kept-test polls d bytes _ p
      (again_kept (forward-Kept fuel (later polls) more bytes d (omega arith) a.1 p))
  where
    again_kept : {f : Forwarded} → Kept (later polls) d bytes f → Kept polls d bytes f
    again_kept k = record {
      ok = k.ok;
      rest = k.rest;
      bytes = k.bytes;
      patient = k.patient;
      cut = k.cut;
      silent = λ s. k.silent (later_quiet polls s);
    }
forward-Kept (suc fuel) polls (read_refused ∷ more) bytes d h a p = absurd a.0

-- Where the reads bring a byte at least or are interrupted, and the writes take any number of bytes
-- or are interrupted: the loop ends well, whenever SIGTERM comes; the pipe has the beginning of the
-- input, and all of it if no SIGTERM comes.
pub forward_all-Kept :
    (polls : Polls) (input : Source) (d : Device)
    → All IsOffer input.answers
    → All IsPatient d.answers
    → Kept polls d input.bytes (forward_all polls input d)
unfolding forward_all
forward_all-Kept polls input d a p =
    forward-Kept (length input.bytes + length input.answers + 1) polls input.answers input.bytes d
      (omega arith) a p
