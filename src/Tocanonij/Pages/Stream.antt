-- ===== src/Tocanonij/Pages/Stream.antt =====
-- The loop over the pages turns a stream of pages into their commands and images.
use cnijfilter.Common.{
  ℕ, zero, suc, ◌+◌, ◌≤◌, ◌<◌, ◌≡◌, refl, sym, ap, ap₂, ◌∙◌, subst, min, Bool, true, not, some,
  List, [], ◌∷◌, ◌++◌, take, drop, length, All, append_assoc, append-nil, take-nil, drop-nil,
  length-append, take-append_length, drop-append_length, pos, ◌==◌, ==_iff, arith,
}
use cnijfilter.Pwg.PackBits.{Bytes}
use cnijfilter.Pwg.Device.{Device}
use cnijfilter.Posix.{
  write_once, ReadAnswer, offers, read_interrupted, read_refused, Source, got, read_once,
}
use cnijfilter.Cndata.{CnData, Layout, magic_number_for_cnijpwg}
use cnijfilter.Tocanonij.Pages.{
  Io, Ending, done, failed, running, copy_image, PageCommands, write_page, page_loop,
}
use cnijfilter.Tocanonij.Pages.Copy.{IsSteady, Copied, copy_image-Copied}

-- A page as it comes from tocnpwg.
pub record Page : Type 0 where
  pub next_page : ℕ
  pub page_num : ℕ
  pub image : Bytes

unfoldable pub page_data : Page → CnData
page_data p = record {
  magic_num = magic_number_for_cnijpwg;
  image_size = pos (length p.image);
  next_page = p.next_page;
  page_num = p.page_num;
}

unfoldable pub stream : Layout → List Page → Bytes
stream layout [] = []
stream layout (p ∷ ps) = layout.print (page_data p) ++ (p.image ++ stream layout ps)

-- Each page between its commands.
unfoldable pub wrapped : (Bool → Bytes) → (ℕ → Bytes) → List Page → Bytes
wrapped config send [] = []
wrapped config send (p ∷ ps) =
    config (not (p.next_page == 0))
    ++ (send (length p.image) ++ (p.image ++ wrapped config send ps))

-- A library that makes every command.
abbrev pub making : (Bool → Bytes) → (ℕ → Bytes) → PageCommands
making config send = record {
  page_configuration = λ b. some (config b);
  send_data = λ n. some (send n);
}

module _ (layout : Layout) (config : Bool → Bytes) (send : ℕ → Bytes) (buf : ℕ) where
  abbrev quiet : (ℕ → Bool) → Bytes → Device
  quiet grant bytes = record { bytes = bytes; answers = []; grant = grant }

  write_page-copy :
      (grant : ℕ → Bool) (fuel : ℕ) (p : Page) (input : Source) (out : Bytes)
      → write_page
          (making config send)
          fuel
          buf
          (page_data p)
          (record { input = input; output = quiet grant out })
        ≡ copy_image fuel buf (length p.image) (record {
          input = input;
          output = quiet grant ((out ++ config (not (p.next_page == 0))) ++ send (length p.image));
        })
  unfolding write_page write_once page_data
  write_page-copy grant fuel p input out =
      rw ((==_iff (length (config (not (p.next_page == 0)))) _).1 refl) refl

  -- A round that reads a whole `CNDATA`.
  page_round :
      (fuel : ℕ) (p : Page) (head : Bytes) (source : Source) (io : Io) (next : Ending)
      → read_once io.input layout.size ≡ (got head, source)
      → 0 < length head
      → layout.parse head ≡ page_data p
      → write_page (making config send) fuel buf (page_data p) (record io { input = source }) ≡ next
      → page_loop layout (making config send) (suc fuel) buf io ≡ (elim next as (λ x. Ending) [
        | done io'' ↦ page_loop layout (making config send) fuel buf io''
        | failed io'' ↦ failed io''
        | running io'' ↦ running io''
      ])
  unfolding page_loop page_data
  page_round fuel p [] source io next e l f w = absurd (omega arith)
  page_round fuel p (b ∷ head) source io next e l f w = rw (first, page_loop, magic, page) refl
    where
      first : (read_once io.input layout.size).0 ≡ got (b ∷ head)
      first = ap (λ r. r.0) e

      magic : ((layout.parse (b ∷ head)).magic_num == magic_number_for_cnijpwg) ≡ true
      magic = ap (λ c. c.magic_num == magic_number_for_cnijpwg) f

      page :
          write_page
            (making config send)
            fuel
            buf
            (layout.parse (b ∷ head))
            (record io { input = (read_once io.input layout.size).1 })
          ≡ next
      page =
          ap₂
            (λ c source. write_page (making config send) fuel buf c (record io { input = source }))
            f (ap (λ r. r.1) e)
          ∙ w

  read_all :
      (head rest : Bytes) (m : ℕ)
      → length head ≡ m
      → (got (take m (head ++ rest)) ≡ got head) × (drop m (head ++ rest) ≡ rest)
  read_all head rest m e =
      (ap got (take-append_length m head rest e), drop-append_length m head rest e)

  -- One round for a page, at whatever place the answers begin.
  page_step :
      (grant : ℕ → Bool) (fuel : ℕ) (answers more : List ReadAnswer) (p : Page) (rest out : Bytes)
      → 0 < buf
      → All (IsSteady layout.size) more
      → length more ≤ length answers
      → length p.image + length more ≤ fuel
      → read_once
          (record { bytes = layout.print (page_data p) ++ (p.image ++ rest); answers = answers })
          layout.size
        ≡ (got (layout.print (page_data p)), record { bytes = p.image ++ rest; answers = more })
      → (grant' : ℕ → Bool) × (last : List ReadAnswer) × (All (IsSteady layout.size) last)
        × (length last ≤ length answers)
        × (page_loop layout (making config send) (suc fuel) buf (record {
          input = record {
            bytes = layout.print (page_data p) ++ (p.image ++ rest);
            answers = answers;
          };
          output = quiet grant out;
        })
            ≡ page_loop layout (making config send) fuel buf (record {
              input = record { bytes = rest; answers = last };
              output =
                  quiet grant' (
                    ((out ++ config (not (p.next_page == 0))) ++ send (length p.image)) ++ p.image);
            }))
  page_step grant fuel answers more p rest out pb s l h e =
      (k.end.output.grant, k.end.input.answers, k.steady, omega (arith, k.fewer, l), whole)
    where
      mid : Bytes
      mid = (out ++ config (not (p.next_page == 0))) ++ send (length p.image)

      k :
          Copied layout.size
            (record {
              input = record { bytes = p.image ++ rest; answers = more };
              output = quiet grant mid;
            })
            p.image
            rest
            (copy_image fuel buf (length p.image) (record {
              input = record { bytes = p.image ++ rest; answers = more };
              output = quiet grant mid;
            }))
      k =
          copy_image-Copied layout.size fuel buf more p.image rest (quiet grant mid)
            layout.some_size pb s tt h

      whole :
          page_loop layout (making config send) (suc fuel) buf (record {
            input = record {
              bytes = layout.print (page_data p) ++ (p.image ++ rest);
              answers = answers;
            };
            output = quiet grant out;
          })
          ≡ page_loop layout (making config send) fuel buf (record {
            input = record { bytes = rest; answers = k.end.input.answers };
            output = quiet k.end.output.grant (mid ++ p.image);
          })
      whole =
          page_round fuel p (layout.print (page_data p)) _ _ (done k.end) e
            (omega (arith, layout.length-print (page_data p), layout.some_size))
            (layout.parse-print (page_data p)) (write_page-copy grant fuel p _ out ∙ k.is_done)
          ∙ (λ i. page_loop layout (making config send) fuel buf (record {
            input = record { bytes = k.left i; answers = k.end.input.answers };
            output = record {
              bytes = k.written i;
              answers = k.quiet refl i;
              grant = k.end.output.grant;
            };
          }))

  page_end :
      (fuel : ℕ) (io : Io) (source : Source)
      → read_once io.input layout.size ≡ (got [], source)
      → page_loop layout (making config send) (suc fuel) buf io
        ≡ done (record io { input = source })
  unfolding page_loop
  page_end fuel io source e =
      let first : (read_once io.input layout.size).0 ≡ got [] = ap (λ r. r.0) e in
      rw (first, page_loop) (ap (λ r. done (record io { input = r.1 })) e)

  -- How the loop ends on a stream of pages.
  pub record Wrapped (out : Bytes) (ps : List Page) (e : Ending) : Type 0 where
    pub end : Io
    pub is_done : e ≡ done end
    pub read_up : end.input.bytes ≡ []
    pub written : end.output.bytes ≡ out ++ wrapped config send ps
    pub quiet : end.output.answers ≡ []

  Wrapped-end :
      (grant : ℕ → Bool) (fuel : ℕ) (answers more : List ReadAnswer) (out : Bytes)
      → read_once (record { bytes = []; answers = answers }) layout.size
        ≡ (got [], record { bytes = []; answers = more })
      → Wrapped out [] (
          page_loop layout
            (making config send)
            (suc fuel)
            buf
            (record { input = record { bytes = []; answers = answers }; output = quiet grant out }))
  unfolding wrapped
  Wrapped-end grant fuel answers more out e = record {
    end = record { input = record { bytes = []; answers = more }; output = quiet grant out };
    is_done = page_end fuel _ _ e;
    read_up = refl;
    written = sym (append-nil out);
    quiet = refl;
  }

  Wrapped-page :
      (p : Page) (ps : List Page) (out : Bytes) (e : Ending)
      → Wrapped
          (((out ++ config (not (p.next_page == 0))) ++ send (length p.image)) ++ p.image)
          ps
          e
      → Wrapped out (p ∷ ps) e
  unfolding wrapped
  Wrapped-page p ps out e w = record {
    end = w.end;
    is_done = w.is_done;
    read_up = w.read_up;
    written =
        w.written
        ∙ append_assoc ((out ++ config (not (p.next_page == 0))) ++ send (length p.image)) p.image _
        ∙ append_assoc (out ++ config (not (p.next_page == 0))) (send (length p.image)) _
        ∙ append_assoc out (config (not (p.next_page == 0))) _;
    quiet = w.quiet;
  }

  Wrapped-step :
      (grant : ℕ → Bool) (fuel : ℕ) (answers more : List ReadAnswer) (p : Page) (ps : List Page)
      (out : Bytes)
      → 0 < buf
      → All (IsSteady layout.size) more
      → length more ≤ length answers
      → length (stream layout (p ∷ ps)) + length answers < suc fuel
      → read_once (record { bytes = stream layout (p ∷ ps); answers = answers }) layout.size ≡ (
        got (layout.print (page_data p)),
        record { bytes = p.image ++ stream layout ps; answers = more },
      )
      → ((grant' : ℕ → Bool) (last : List ReadAnswer) (out' : Bytes)
          → All (IsSteady layout.size) last
          → length (stream layout ps) + length last < fuel
          → Wrapped out' ps (
              page_loop layout (making config send) fuel buf (record {
                input = record { bytes = stream layout ps; answers = last };
                output = quiet grant' out';
              })))
      → Wrapped out (p ∷ ps) (
          page_loop layout (making config send) (suc fuel) buf (record {
            input = record { bytes = stream layout (p ∷ ps); answers = answers };
            output = quiet grant out;
          }))
  unfolding stream
  Wrapped-step grant fuel answers more p ps out pb s l h e ih =
      let k =
        page_step grant fuel answers more p (stream layout ps) out pb s l
          (omega (arith, h, l, long)) e in
      Wrapped-page p ps out _ (
        subst (Wrapped _ ps) (sym k.4)
          (ih k.0 k.1 _ k.2 (omega (arith, h, k.3, long, layout.some_size))))
    where
      long :
          length (layout.print (page_data p) ++ (p.image ++ stream layout ps))
          ≡ layout.size + (length p.image + length (stream layout ps))
      long = omega (
        arith,
        length-append (layout.print (page_data p)) (p.image ++ stream layout ps),
        length-append p.image (stream layout ps),
        layout.length-print (page_data p),
      )

  -- For a library that makes every command of a page, and a stream of pages whose input offers a
  -- whole `CNDATA` at least at each read, or is interrupted, on an output that takes what it gets:
  -- with so much fuel, the loop ends well, has read everything, and has written, for each page, the
  -- configuration, the announcement of the data and the image.
  pub page_loop-stream :
      (grant : ℕ → Bool) (fuel : ℕ) (answers : List ReadAnswer) (ps : List Page) (out : Bytes)
      → 0 < buf
      → All (IsSteady layout.size) answers
      → length (stream layout ps) + length answers < fuel
      → Wrapped out ps (
          page_loop layout (making config send) fuel buf (record {
            input = record { bytes = stream layout ps; answers = answers };
            output = quiet grant out;
          }))
  unfolding stream read_once page_loop
  page_loop-stream grant zero answers ps out pb s h = absurd (omega arith)
  page_loop-stream grant (suc fuel) [] [] out pb s h =
      Wrapped-end grant fuel [] [] out (λ i.
        (got (take-nil layout.size i), record { bytes = drop-nil layout.size i; answers = [] }))
  page_loop-stream grant (suc fuel) (offers k ∷ more) [] out pb s h =
      Wrapped-end grant fuel (offers k ∷ more) more out (λ i. (
        got (take-nil (min k layout.size) i),
        record { bytes = drop-nil (min k layout.size) i; answers = more },
      ))
  page_loop-stream grant (suc fuel) (read_interrupted ∷ more) ps out pb s h =
      page_loop-stream grant fuel more ps out pb s.1 (omega (arith, h))
  page_loop-stream grant (suc fuel) (read_refused ∷ more) ps out pb s h = absurd s.0
  page_loop-stream grant (suc fuel) [] (p ∷ ps) out pb s h =
      Wrapped-step grant fuel [] [] p ps out pb tt (omega arith) h
        (λ i. (
          (read_all (layout.print (page_data p)) (p.image ++ stream layout ps) layout.size
                (layout.length-print (page_data p))).0
              i,
          record {
            bytes =
                (read_all (layout.print (page_data p)) (p.image ++ stream layout ps) layout.size
                    (layout.length-print (page_data p))).1
                  i;
            answers = [];
          },
        ))
        (λ grant' last out' s' h'. page_loop-stream grant' fuel last ps out' pb s' h')
  page_loop-stream grant (suc fuel) (offers k ∷ more) (p ∷ ps) out pb s h =
      Wrapped-step grant fuel (offers k ∷ more) more p ps out pb s.1 (omega arith) h
        (λ i. (
          (read_all (layout.print (page_data p)) (p.image ++ stream layout ps) (min k layout.size)
                (omega (arith, s.0, layout.length-print (page_data p)))).0
              i,
          record {
            bytes =
                (read_all (layout.print (page_data p)) (p.image ++ stream layout ps)
                    (min k layout.size) (omega (arith, s.0, layout.length-print (page_data p)))).1
                  i;
            answers = more;
          },
        ))
        (λ grant' last out' s' h'. page_loop-stream grant' fuel last ps out' pb s' h')
