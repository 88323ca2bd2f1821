-- ===== src/Lgmon/Transfer/Whole.antt =====
-- A printer that takes bytes gets the whole file.
use cnijfilter.Common.{
  ℕ, zero, suc, ◌+◌, ◌≤◌, ◌<◌, ◌≡◌, refl, ap, ◌∙◌, subst, Bool, true, false, Bool-cases, inl, inr,
  some, List, [], ◌∷◌, ◌++◌, ltb, leb, take, drop, length, All, length-take, length-drop, ltb-false,
  arith,
}
use cnijfilter.Pwg.PackBits.{Bytes}
use cnijfilter.Lgmon.{IfType, is_negative}
use cnijfilter.Lgmon.Response.{Parser}
use cnijfilter.Lgmon.Run.{Run, Turn, Step, passed, catch}
use cnijfilter.Lgmon.Transfer.{
  cn_write_size, cnif_write, again, note_status, write_step, round, send_chunk, send_file,
  send_copies,
}
use cnijfilter.Lgmon.Transfer.Counted.{
  all_counted, counted_write, drop-min, well_counted, well_result,
}
use cnijfilter.Lgmon.Transfer.Prefix.{Sent, send_copies-Sent, no_copies}

-- No signal and no time for the status, and a write that takes a byte at least.
pub record IsProductive (u : Turn) : Type 0 where
  pub silent : u.signal ≡ false
  pub soon : u.elapsed < 4
  pub well : is_negative u.result ≡ false
  pub some_bytes : 0 < u.transfered

-- The part passed, within a turn a byte, and leaves such turns.
pub record Passed (turns : List Turn) (bytes : ℕ) (step : Step) : Type 0 where
  pub end : Run
  pub left : List Turn
  pub is_passed : step ≡ passed end left
  pub good : All IsProductive left
  pub quiet : end.session.interrupt_sign ≡ false
  pub enough : length turns ≤ length left + bytes

module _ (p : Parser) (grant : ℕ → Bool) (if_type : IfType) where
  after : Turn → Bytes → Run → Run
  after u chunk r = record r {
    err = u.result;
    sent = r.sent ++ take u.transfered chunk;
    send_start = true;
  }

  not_caught : (u : Turn) (r : Run) → u.signal ≡ false → catch u r ≡ r
  unfolding catch
  not_caught u r h = rw (h, catch) refl

  no_status : (u : Turn) (r : Run) → u.elapsed < 4 → note_status p grant if_type u r ≡ some r
  unfolding note_status
  no_status u r h =
      let soon : leb 4 u.elapsed ≡ false = ground (arith, h) in rw (soon, note_status) refl

  write_again :
      (u : Turn) (chunk : Bytes) (r : Run)
      → is_negative u.result ≡ false
      → r.session.interrupt_sign ≡ false
      → write_step p grant if_type u chunk r ≡ again (after u chunk r)
  unfolding write_step after
  write_again u chunk r h q =
      rw (well_result if_type u (length chunk) h, write_step, h, q, write_step) refl

  round_again :
      (u : Turn) (chunk : Bytes) (r : Run)
      → IsProductive u
      → r.session.interrupt_sign ≡ false
      → round p grant if_type u chunk r ≡ again (after u chunk r)
  unfolding round
  round_again u chunk r h q =
      let status : note_status p grant if_type u (catch u r) ≡ some r =
        ap (note_status p grant if_type u) (not_caught u r h.silent) ∙ no_status u r h.soon in
      rw (status, round) (write_again u chunk r h.well q)

  send_chunk-Passed :
      (turns : List Turn) (n : ℕ) (chunk : Bytes) (r : Run)
      → All IsProductive turns
      → r.session.interrupt_sign ≡ false
      → length chunk ≤ n
      → n ≤ length turns
      → Passed turns n (send_chunk p grant if_type turns chunk r)
  unfolding send_chunk after
  send_chunk-Passed turns n [] r g q l k = record {
    end = r;
    left = turns;
    is_passed = refl;
    good = g;
    quiet = q;
    enough = omega arith;
  }
  send_chunk-Passed [] n (b ∷ chunk) r g q l k = absurd (omega arith)
  send_chunk-Passed (u ∷ turns) zero (b ∷ chunk) r g q l k = absurd (omega arith)
  send_chunk-Passed (u ∷ turns) (suc n) (b ∷ chunk) r g q l k =
      let all = b ∷ chunk in
      let same : drop (cnif_write if_type u (length all)).1 all ≡ drop u.transfered all =
        ap (λ m. drop m all)
          (counted_write if_type u (length all) (well_counted if_type u g.0.well))
        ∙ drop-min u.transfered all in
      let rest =
        send_chunk-Passed turns n (drop u.transfered all) (after u all r) g.1 q
          (omega (arith, g.0.some_bytes, length-drop u.transfered all)) (omega arith) in
      record {
        end = rest.end;
        left = rest.left;
        is_passed = rw (round_again u all r g.0 q, send_chunk, same) rest.is_passed;
        good = rest.good;
        quiet = rest.quiet;
        enough = omega (arith, rest.enough);
      }

  productive_counted :
      (turns : List Turn) → All IsProductive turns → all_counted if_type turns ≡ true
  unfolding all_counted
  productive_counted [] g = refl
  productive_counted (u ∷ turns) g =
      rw (well_counted if_type u g.0.well) (productive_counted turns g.1)

  send_file-Passed :
      (fuel : ℕ) (turns : List Turn) (file : Bytes) (r : Run)
      → All IsProductive turns
      → r.session.interrupt_sign ≡ false
      → length file ≤ length turns
      → length file < fuel
      → Passed turns (length file) (
          send_file p grant if_type fuel false turns
            (take cn_write_size file)
            (drop cn_write_size file)
            r)
  unfolding send_file
  send_file-Passed zero turns file r g q l k = absurd (omega arith)
  send_file-Passed (suc fuel) turns file r g q l k =
      let c =
        send_chunk-Passed turns (length (take cn_write_size file)) (take cn_write_size file) r g q
          (omega arith) (omega (arith, length-take cn_write_size file)) in
      elim (Bool-cases (ltb (length (take cn_write_size file)) cn_write_size)) [
        | inl h ↦
            rw (c.is_passed, send_file, h)
              (record {
                end = c.end;
                left = c.left;
                is_passed = refl;
                good = c.good;
                quiet = c.quiet;
                enough = omega (arith, c.enough, length-take cn_write_size file);
              })
        | inr h ↦
            let rest =
              send_file-Passed fuel c.left (drop cn_write_size file) c.end c.good c.quiet
                (omega
                  (arith, c.enough, length-take cn_write_size file, length-drop cn_write_size file))
                (omega (
                  arith,
                  length-take cn_write_size file,
                  length-drop cn_write_size file,
                  ltb-false (length (take cn_write_size file)) cn_write_size h,
                )) in
            rw (c.is_passed, send_file, h)
              (record {
                end = rest.end;
                left = rest.left;
                is_passed = rest.is_passed;
                good = rest.good;
                quiet = rest.quiet;
                enough = omega (
                  arith,
                  rest.enough,
                  c.enough,
                  length-take cn_write_size file,
                  length-drop cn_write_size file,
                );
              })
      ]

  -- For a file that can be read to its end and at least one copy, and where no signal comes, no
  -- status is asked for and every write takes a byte at least: within as many rounds as the file has
  -- bytes the transfer passes, and the printer has taken the file, once.
  pub send_copies-Passed :
      (copies : ℕ) (turns : List Turn) (file : Bytes) (r : Run)
      → All IsProductive turns
      → r.session.interrupt_sign ≡ false
      → length file ≤ length turns
      → (end : Run) × (left : List Turn) × (send_copies p grant if_type
            (suc copies)
            true
            false
            turns
            file
            r
          ≡ passed end left)
        × (end.sent ≡ r.sent ++ file)
  unfolding send_copies
  send_copies-Passed copies turns file r g q l =
      let f = send_file-Passed (length file + 1) turns file r g q l (omega arith) in
      let e : send_copies p grant if_type (suc copies) true false turns file r
          ≡ passed f.end f.left =
        rw (f.is_passed, send_copies) (no_copies p grant if_type copies false f.left file f.end) in
      (
        f.end,
        f.left,
        e,
        subst (Sent (r.sent ++ file)) e (
            send_copies-Sent p grant if_type copies false turns file r
              (productive_counted turns g)),
      )
