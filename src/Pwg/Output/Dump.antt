-- ===== src/Pwg/Output/Dump.antt =====
-- `pwgRasterDump` copies the whole file, however its writes are split or interrupted.
use cnijfilter.Common.{
  ℕ, zero, suc, ◌+◌, ◌≤◌, ◌<◌, ◌≡◌, refl, sym, ap, ◌∙◌, subst, min, Bool, true, List, [], ◌∷◌, ◌++◌,
  take, drop, length, All, append_assoc, append-nil, nil_of_length, take-append-drop, length-drop,
  arith,
}
use cnijfilter.Pwg.PackBits.{Bytes}
use cnijfilter.Pwg.Device.{Device, Answer, taken, interrupted, again, refused}
use cnijfilter.Posix.{write_once}
use cnijfilter.Pwg.Raster.{Raster}
use cnijfilter.Pwg.Output.{data_buf_size, dump_chunk, dump_loop, raster_dump}

-- An answer that is a count, even of no bytes, or an interruption.
abbrev pub IsPatient : Answer → Type 0
IsPatient (taken n) = Unit
IsPatient interrupted = Unit
IsPatient again = ⊥
IsPatient refused = ⊥

-- The bytes went out, with no error.
pub record Dumped (out : Device) (file : Bytes) (r : Bool × Device) : Type 0 where
  pub ok : r.0 ≡ true
  pub bytes : r.1.bytes ≡ out.bytes ++ file
  pub patient : All IsPatient r.1.answers
  pub grant : r.1.grant ≡ out.grant
  pub quiet : out.answers ≡ [] → r.1.answers ≡ []

abbrev device : Bytes → List Answer → (ℕ → Bool) → Device
device bytes answers grant = record { bytes = bytes; answers = answers; grant = grant }

dump_chunk_nil :
    (fuel : ℕ) (out : Device)
    → 0 < fuel
    → All IsPatient out.answers
    → Dumped out [] (dump_chunk fuel out [])
unfolding dump_chunk
dump_chunk_nil zero out h p = absurd (omega arith)
dump_chunk_nil (suc fuel) out h p = record {
  ok = refl;
  bytes = sym (append-nil out.bytes);
  patient = p;
  grant = refl;
  quiet = λ e. e;
}

-- The answers of the device decrease.
dump_chunk-Dumped :
    (fuel : ℕ) (answers : List Answer) (bytes chunk : Bytes) (grant : ℕ → Bool)
    → length answers + 2 ≤ fuel
    → All IsPatient answers
    → Dumped (device bytes answers grant) chunk (dump_chunk fuel (device bytes answers grant) chunk)
unfolding dump_chunk write_once
dump_chunk-Dumped zero answers bytes chunk grant h p = absurd (omega arith)
dump_chunk-Dumped (suc fuel) answers bytes [] grant h p =
    dump_chunk_nil (suc fuel) (device bytes answers grant) (omega arith) p
dump_chunk-Dumped (suc fuel) [] bytes (b ∷ chunk) grant h p =
    let all = b ∷ chunk in
    let left : drop (length all) all ≡ [] =
      nil_of_length (drop (length all) all) (length-drop (length all) all ∙ omega arith) in
    let r =
      subst
        (λ c.
          Dumped (device (bytes ++ all) [] grant) []
            (dump_chunk fuel (device (bytes ++ all) [] grant) c))
        (sym left) (dump_chunk_nil fuel (device (bytes ++ all) [] grant) (omega arith) tt) in
    record {
      ok = r.ok;
      bytes = r.bytes ∙ append-nil (bytes ++ all);
      patient = r.patient;
      grant = r.grant;
      quiet = r.quiet;
    }
dump_chunk-Dumped (suc fuel) (taken n ∷ more) bytes (b ∷ chunk) grant h p =
    let all = b ∷ chunk in
    let k = min n (length all) in
    let r =
      dump_chunk-Dumped fuel more (bytes ++ take k all) (drop k all) grant (omega arith) p.1 in
    record {
      ok = r.ok;
      bytes =
          r.bytes
          ∙ append_assoc bytes (take k all) (drop k all)
          ∙ ap (λ c. bytes ++ c) (take-append-drop k all);
      patient = r.patient;
      grant = r.grant;
      quiet = λ e. cc;
    }
dump_chunk-Dumped (suc fuel) (interrupted ∷ more) bytes (b ∷ chunk) grant h p =
    let r = dump_chunk-Dumped fuel more bytes (b ∷ chunk) grant (omega arith) p.1 in
    record { ok = r.ok; bytes = r.bytes; patient = r.patient; grant = r.grant; quiet = λ e. cc }
dump_chunk-Dumped (suc fuel) (again ∷ more) bytes (b ∷ chunk) grant h p = absurd p.0
dump_chunk-Dumped (suc fuel) (refused ∷ more) bytes (b ∷ chunk) grant h p = absurd p.0

dump_loop-Dumped :
    (fuel : ℕ) (out : Device) (file : Bytes)
    → length file < fuel
    → All IsPatient out.answers
    → Dumped out file (dump_loop fuel out file)
unfolding dump_loop
dump_loop-Dumped zero out file h p = absurd (omega arith)
dump_loop-Dumped (suc fuel) out [] h p = record {
  ok = refl;
  bytes = sym (append-nil out.bytes);
  patient = p;
  grant = refl;
  quiet = λ e. e;
}
dump_loop-Dumped (suc fuel) out (b ∷ file) h p =
    let all = b ∷ file in
    let c =
      dump_chunk-Dumped (length out.answers + 2) out.answers out.bytes (take data_buf_size all)
        out.grant (omega arith) p in
    let r =
      dump_loop-Dumped fuel (dump_chunk (length out.answers + 2) out (take data_buf_size all)).1
        (drop data_buf_size all) (omega (arith, length-drop data_buf_size all, h)) c.patient in
    rw (c.ok, dump_loop)
      (record {
        ok = r.ok;
        bytes =
            r.bytes
            ∙ ap (λ s. s ++ drop data_buf_size all) c.bytes
            ∙ append_assoc out.bytes (take data_buf_size all) (drop data_buf_size all)
            ∙ ap (λ s. out.bytes ++ s) (take-append-drop data_buf_size all);
        patient = r.patient;
        grant = r.grant ∙ c.grant;
        quiet = λ e. r.quiet (c.quiet e);
      })

dump_whole :
    (r : Raster) (out : Device)
    → All IsPatient out.answers
    → Dumped out r.device.bytes (dump_loop (length r.device.bytes + 1) out r.device.bytes)
dump_whole r out p = dump_loop-Dumped (length r.device.bytes + 1) out r.device.bytes (omega arith) p

-- Where `malloc` grants the buffer, and on an output whose writes take any number of bytes or are
-- interrupted, but do not fail: the dump ends well and appends exactly the bytes of the file; its
-- loops end.
pub raster_dump-Dumped :
    (r : Raster) (out : Device)
    → out.grant data_buf_size ≡ true
    → All IsPatient out.answers
    → Dumped out r.device.bytes (raster_dump r out)
unfolding raster_dump
raster_dump-Dumped r out g p = rw (g, raster_dump) (dump_whole r out p)
