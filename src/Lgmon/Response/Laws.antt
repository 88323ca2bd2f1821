-- ===== src/Lgmon/Response/Laws.antt =====
-- When the monitor takes a printer of the older protocol for idle.
use cnijfilter.Common.{◌≡◌, ◌⊎◌, ◌↔◌, Bool, true, false, not, ◌&&◌, ℤ, pos, arith}
use cnijfilter.Pwg.PackBits.{Bytes}
use cnijfilter.Lgmon.{Session, is_negative, is_negsuc}
use cnijfilter.Lgmon.Response.{Parser, interpret_status, interpret_response}

-- The library understood the bytes: its result is not negative, or is -5.
unfoldable pub is_understood : ℤ → Bool
is_understood err = not (is_negative err && not (is_negsuc err 4))

-- The bytes were understood, and start a job, or are a status that is idle.
abbrev pub IsTakenForIdle : Parser → Bytes → Type 0
IsTakenForIdle p bytes =
    (is_understood (p.get_info_response bytes).0 ≡ true)
    × (((p.get_info_response bytes).1 ≡ 8)
        ⊎ (((p.get_info_response bytes).1 ≡ 14)
            × (is_negative (p.get_status bytes).err ≡ false)
            × ((p.get_status bytes).status ≡ 1)))

-- For the older protocols the result of a response is that of an idle printer exactly where the
-- library understood it and it is a status that is idle, or the answer to the start of a job, whose
-- number is the same.
pub interpret_response_idle_iff :
    (p : Parser) (bytes : Bytes) (s : Session)
    → ((interpret_response p bytes s).0 ≡ pos 1) ↔ IsTakenForIdle p bytes
unfolding interpret_response interpret_status is_understood
interpret_response_idle_iff p bytes s = (λ h. ground arith, λ h. ground arith)
