-- ===== src/Maintenance/WriteBuffer/Ends.antt =====
-- How the loop of `write_buffer` ends.
use cnijfilter.Common.{
  ℕ, zero, suc, ◌+◌, ◌^◌, ◌≤◌, ◌<◌, ◌≡◌, refl, sym, ap, ◌∙◌, min, Bool, true, false, Bool-cases,
  inl, inr, Option, some, List, [], ◌∷◌, ◌++◌, take, drop, length, All, append_assoc, append-nil,
  take-append-drop, length-drop, drop-nil, nil_of_length, ltb, arith,
}
use cnijfilter.Pwg.PackBits.{Bytes}
use cnijfilter.Pwg.Device.{Device, Answer, taken, interrupted, again, refused}
use cnijfilter.Posix.{write_once}
use cnijfilter.Maintenance.WriteBuffer.{add_failed, write_from, write_buffer}

-- The loop is over where all is written, or more than that.
past :
    (fuel : ℕ) (buffer : Bytes) (written : ℕ) (d : Device)
    → length buffer ≤ written
    → write_from (suc fuel) buffer written d ≡ some d
unfolding write_from
past fuel buffer written d h =
    let e : ltb written (length buffer) ≡ false = ground (arith, h) in rw (e, write_from) refl

abbrev HasEnded : Option Device → Type 0
HasEnded o = (d : Device) × (o ≡ some d)

past_is_over :
    (fuel : ℕ) (buffer : Bytes) (written : ℕ) (d : Device)
    → 0 < fuel
    → length buffer ≤ written
    → HasEnded (write_from fuel buffer written d)
past_is_over zero buffer written d h k = absurd (omega arith)
past_is_over (suc fuel) buffer written d h k = (d, past fuel buffer written d k)

abbrev pub output_of : Bytes → List Answer → (ℕ → Bool) → Device
output_of bytes answers grant = record { bytes = bytes; answers = answers; grant = grant }

write_from_ends :
    (fuel : ℕ) (buffer : Bytes) (written : ℕ) (bytes : Bytes) (answers : List Answer)
    (grant : ℕ → Bool)
    → length answers + 2 ≤ fuel
    → HasEnded (write_from fuel buffer written (output_of bytes answers grant))
unfolding write_from write_once
write_from_ends zero buffer written bytes answers grant h = absurd (omega arith)
write_from_ends (suc fuel) buffer written bytes [] grant h =
    elim (Bool-cases (ltb written (length buffer))) [
      | inl t ↦
          rw (t, write_from)
            (past_is_over fuel buffer (written + length (drop written buffer)) _ (omega arith)
              (omega (arith, length-drop written buffer)))
      | inr t ↦ rw (t, write_from) (_, refl)
    ]
write_from_ends (suc fuel) buffer written bytes (taken n ∷ more) grant h =
    elim (Bool-cases (ltb written (length buffer))) [
      | inl t ↦
          rw (t, write_from)
            (write_from_ends fuel buffer (written + min n (length (drop written buffer))) _ more
              grant (omega (arith, h)))
      | inr t ↦ rw (t, write_from) (_, refl)
    ]
write_from_ends (suc fuel) buffer written bytes (interrupted ∷ more) grant h =
    elim (Bool-cases (ltb written (length buffer))) [
      | inl t ↦
          rw (t, write_from)
            (write_from_ends fuel buffer (add_failed written) _ more grant (omega (arith, h)))
      | inr t ↦ rw (t, write_from) (_, refl)
    ]
write_from_ends (suc fuel) buffer written bytes (again ∷ more) grant h =
    elim (Bool-cases (ltb written (length buffer))) [
      | inl t ↦
          rw (t, write_from)
            (write_from_ends fuel buffer (add_failed written) _ more grant (omega (arith, h)))
      | inr t ↦ rw (t, write_from) (_, refl)
    ]
write_from_ends (suc fuel) buffer written bytes (refused ∷ more) grant h =
    elim (Bool-cases (ltb written (length buffer))) [
      | inl t ↦
          rw (t, write_from)
            (write_from_ends fuel buffer (add_failed written) _ more grant (omega (arith, h)))
      | inr t ↦ rw (t, write_from) (_, refl)
    ]

-- Whatever the writes answer, the loop ends.
pub write_buffer_ends :
    (buffer : Bytes) (d : Device) → (e : Device) × (write_buffer buffer d ≡ some e)
unfolding write_buffer
write_buffer_ends buffer d =
    write_from_ends (length d.answers + 2) buffer 0 d.bytes d.answers d.grant (omega arith)

-- An answer that is an error.
abbrev pub IsError : Answer → Type 0
IsError (taken n) = ⊥
IsError interrupted = Unit
IsError again = Unit
IsError refused = Unit

failed_first :
    (fuel b : ℕ) (buffer bytes : Bytes) (a : Answer) (more : List Answer) (grant : ℕ → Bool)
    → 2 ≤ fuel
    → IsError a
    → length (b ∷ buffer) < 2 ^ 64
    → write_from fuel (b ∷ buffer) 0 (output_of bytes (a ∷ more) grant)
      ≡ some (output_of bytes more grant)
unfolding write_from write_once
failed_first zero b buffer bytes a more grant h e l = absurd (omega arith)
failed_first (suc zero) b buffer bytes a more grant h e l = absurd (omega arith)
failed_first (suc (suc fuel)) b buffer bytes (taken n) more grant h e l = absurd e
failed_first (suc (suc fuel)) b buffer bytes interrupted more grant h e l =
    let t : ltb 0 (length (b ∷ buffer)) ≡ true = ground arith in
    rw (t, write_from)
      (past fuel (b ∷ buffer) (add_failed 0) (output_of bytes more grant) (omega (arith, l)))
failed_first (suc (suc fuel)) b buffer bytes again more grant h e l =
    let t : ltb 0 (length (b ∷ buffer)) ≡ true = ground arith in
    rw (t, write_from)
      (past fuel (b ∷ buffer) (add_failed 0) (output_of bytes more grant) (omega (arith, l)))
failed_first (suc (suc fuel)) b buffer bytes refused more grant h e l =
    let t : ltb 0 (length (b ∷ buffer)) ≡ true = ground arith in
    rw (t, write_from)
      (past fuel (b ∷ buffer) (add_failed 0) (output_of bytes more grant) (omega (arith, l)))

-- Where the first write of a buffer fails, even if a signal interrupts it, `write_buffer` has
-- written nothing and reports success.
pub write_buffer_failed :
    (b : ℕ) (buffer bytes : Bytes) (a : Answer) (more : List Answer) (grant : ℕ → Bool)
    → IsError a
    → length (b ∷ buffer) < 2 ^ 64
    → write_buffer (b ∷ buffer) (output_of bytes (a ∷ more) grant)
      ≡ some (output_of bytes more grant)
unfolding write_buffer
write_buffer_failed b buffer bytes a more grant h l =
    failed_first (length (a ∷ more) + 2) b buffer bytes a more grant (omega arith) h l

-- A write that takes a number of bytes.
abbrev pub IsCount : Answer → Type 0
IsCount (taken n) = Unit
IsCount interrupted = ⊥
IsCount again = ⊥
IsCount refused = ⊥

-- All the bytes went out behind those before, and only such answers are left.
pub record Wrote (bytes buffer : Bytes) (o : Option Device) : Type 0 where
  pub device : Device
  pub is_device : o ≡ some device
  pub bytes_of : device.bytes ≡ bytes ++ buffer
  pub counts : All IsCount device.answers

drop-add : (m n : ℕ) (xs : Bytes) → drop (m + n) xs ≡ drop n (drop m xs)
drop-add zero n xs = ap (λ k. drop k xs) (omega arith)
drop-add (suc m) n [] = drop-nil {A = ℕ} (suc m + n) ∙ sym (drop-nil {A = ℕ} n)
drop-add (suc m) n (x ∷ xs) =
    let e : suc m + n ≡ suc (m + n) = omega arith in rw e (drop-add m n xs)

Wrote-step :
    (bytes part after all : Bytes) (o : Option Device)
    → part ++ after ≡ all
    → Wrote (bytes ++ part) after o
    → Wrote bytes all o
Wrote-step bytes part after all o e w = record {
  device = w.device;
  is_device = w.is_device;
  bytes_of = w.bytes_of ∙ append_assoc bytes part after ∙ ap (λ b. bytes ++ b) e;
  counts = w.counts;
}

Wrote-end :
    (fuel : ℕ) (buffer : Bytes) (written : ℕ) (bytes : Bytes) (answers : List Answer)
    (grant : ℕ → Bool)
    → 0 < fuel
    → All IsCount answers
    → length buffer ≤ written
    → Wrote bytes
        (drop written buffer)
        (write_from fuel buffer written (output_of bytes answers grant))
Wrote-end zero buffer written bytes answers grant h c l = absurd (omega arith)
Wrote-end (suc fuel) buffer written bytes answers grant h c l = record {
  device = output_of bytes answers grant;
  is_device = past fuel buffer written (output_of bytes answers grant) l;
  bytes_of =
      sym (append-nil bytes)
      ∙ ap (λ b. bytes ++ b)
          (sym
            (nil_of_length (drop written buffer) (length-drop written buffer ∙ omega (arith, l))));
  counts = c;
}

write_from-Wrote :
    (fuel : ℕ) (buffer : Bytes) (written : ℕ) (bytes : Bytes) (answers : List Answer)
    (grant : ℕ → Bool)
    → length answers + 2 ≤ fuel
    → All IsCount answers
    → Wrote bytes
        (drop written buffer)
        (write_from fuel buffer written (output_of bytes answers grant))
unfolding write_from write_once
write_from-Wrote zero buffer written bytes answers grant h c = absurd (omega arith)
write_from-Wrote (suc fuel) buffer written bytes [] grant h c =
    let part = drop written buffer in
    let k = written + length part in
    elim (Bool-cases (ltb written (length buffer))) [
      | inl t ↦
          rw (t, write_from)
            (Wrote-step bytes part (drop k buffer) part
              (write_from fuel buffer k (output_of (bytes ++ part) [] grant))
              (ap (λ b. part ++ b)
                  (nil_of_length (drop k buffer)
                    (length-drop k buffer ∙ omega (arith, length-drop written buffer)))
                ∙ append-nil part)
              (Wrote-end fuel buffer k (bytes ++ part) [] grant (omega arith) tt
                (omega (arith, length-drop written buffer))))
      | inr t ↦
          Wrote-end (suc fuel) buffer written bytes [] grant (omega arith) c (ground (arith, t))
    ]
write_from-Wrote (suc fuel) buffer written bytes (taken n ∷ more) grant h c =
    let part = drop written buffer in
    let k = min n (length part) in
    elim (Bool-cases (ltb written (length buffer))) [
      | inl t ↦
          rw (t, write_from)
            (Wrote-step bytes (take k part) (drop (written + k) buffer) part
              (write_from fuel buffer (written + k) (output_of (bytes ++ take k part) more grant))
              (ap (λ b. take k part ++ b) (drop-add written k buffer) ∙ take-append-drop k part)
              (write_from-Wrote fuel buffer (written + k) (bytes ++ take k part) more grant
                (omega (arith, h)) c.1))
      | inr t ↦
          Wrote-end (suc fuel) buffer written bytes (taken n ∷ more) grant (omega arith) c
            (ground (arith, t))
    ]
write_from-Wrote (suc fuel) buffer written bytes (interrupted ∷ more) grant h c = absurd c.0
write_from-Wrote (suc fuel) buffer written bytes (again ∷ more) grant h c = absurd c.0
write_from-Wrote (suc fuel) buffer written bytes (refused ∷ more) grant h c = absurd c.0

-- Where each write takes a number of bytes, the buffer goes out whole.
pub write_buffer-Wrote :
    (buffer : Bytes) (d : Device)
    → All IsCount d.answers
    → Wrote d.bytes buffer (write_buffer buffer d)
unfolding write_buffer
write_buffer-Wrote buffer d c =
    write_from-Wrote (length d.answers + 2) buffer 0 d.bytes d.answers d.grant (omega arith) c
