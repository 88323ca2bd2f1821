-- ===== src/Canonij/Forward.antt =====
-- rastertocanonij/src/main.c, "WriteData" of `main`: the raster goes from standard input to the
-- filters that were started.
pub mod Whole
use cnijfilter.Common.{
  ℕ, zero, suc, ◌+◌, ◌*◌, Bool, true, false, Option, none, some, List, [], ◌∷◌, if◌then◌else◌, drop,
  length,
}
use cnijfilter.Pwg.PackBits.{Bytes}
use cnijfilter.Pwg.Device.{Device}
use cnijfilter.Posix.{
  wrote, write_eintr, write_error, write_once, Source, got, read_eintr, read_error, read_once,
}

-- DATA_BUF_SIZE
abbrev pub pipe_buf_size : ℕ
pipe_buf_size = 1024 * 256

-- How many tests of `g_signal_received` come before SIGTERM does, if it does.
abbrev pub Polls : Type 0
Polls = Option ℕ

abbrev pub poll : Polls → Bool
poll none = false
poll (some zero) = true
poll (some (suc n)) = false

abbrev pub later : Polls → Polls
later none = none
later (some zero) = some zero
later (some (suc n)) = some n

-- One test more.
abbrev pub after_one : Polls → Polls
after_one none = none
after_one (some n) = some (suc n)

-- How a loop ends: well or with an error, with the tests to come and the pipe.
pub record Forwarded : Type 0 where
  pub ok : Bool
  pub polls : Polls
  pub pipe : Device

-- The inner loop from a test of `!g_signal_received && read_bytes > 0` on. A call that is
-- interrupted is made again.
unfoldable pub forward_rest : ℕ → Polls → Device → Bytes → Forwarded
forward_rest zero polls d chunk = record { ok = false; polls = polls; pipe = d }
forward_rest (suc fuel) polls d [] = record { ok = true; polls = later polls; pipe = d }
forward_rest (suc fuel) polls d (b ∷ chunk) =
    if poll polls
    then record { ok = true; polls = later polls; pipe = d }
    else elim (write_once d (b ∷ chunk)).0 [
      | wrote n ↦ forward_rest fuel (later polls) (write_once d (b ∷ chunk)).1 (drop n (b ∷ chunk))
      | write_eintr ↦ forward_rest fuel (later polls) (write_once d (b ∷ chunk)).1 (b ∷ chunk)
      | write_error ↦ record {
        ok = false;
        polls = later polls;
        pipe = (write_once d (b ∷ chunk)).1;
      }
    ]

-- The inner loop, which begins without a test. Each round uses up an answer of the pipe, or writes
-- all it has.
unfoldable pub forward_chunk : Polls → Device → Bytes → Forwarded
forward_chunk polls d chunk = forward_rest (length d.answers + 2) (after_one polls) d chunk

-- The outer loop, with the rounds left; an error of the read other than EINTR ends it.
unfoldable pub forward : ℕ → Polls → Source → Device → Forwarded
forward zero polls input d = record { ok = false; polls = polls; pipe = d }
forward (suc fuel) polls input d =
    let input' = (read_once input pipe_buf_size).1 in
    if poll polls
    then record { ok = true; polls = later polls; pipe = d }
    else elim (read_once input pipe_buf_size).0 [
      | got [] ↦ record { ok = true; polls = later polls; pipe = d }
      | got (b ∷ chunk) ↦
          let f = forward_chunk (later polls) d (b ∷ chunk) in
          let next = forward fuel f.polls input' f.pipe in if f.ok then next else f
      | read_eintr ↦ forward fuel (later polls) input' d
      | read_error ↦ record { ok = false; polls = later polls; pipe = d }
    ]

-- `while (!g_signal_received) ...` of `main`: each round uses up an answer of the input, or a byte.
unfoldable pub forward_all : Polls → Source → Device → Forwarded
forward_all polls input d = forward (length input.bytes + length input.answers + 1) polls input d
