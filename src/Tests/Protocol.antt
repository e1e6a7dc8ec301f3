-- ===== src/Tests/Protocol.antt =====
-- Responses collected from concrete lines (callstack/protocol/executor.py).
use callstack.Prelude.{
  arith, ℕ, true, false, ◌≡◌, refl, List, [], ◌∷◌, ◌++◌, Text, codes, text_eq, starts_with,
}
use callstack.Protocol.Lines.{
  is_space, lstrip, rstrip, strip, is_in, starts_with_any, is_final_error,
  is_sensitive_command_line,
}
use callstack.Protocol.Executor.{
  Read, Result, Command, command_preserves_urc_like_payload, line_matches_success,
  line_matches_error, collecting, collect_response, Executor,
}
use callstack.Protocol.Executor.Response.{Ended, IsCollecting-start, collect_response-Ended}
use callstack.Pdu.Phone.{is_digit}
use callstack.Protocol.Commands.{cpin_puk, is_code}
use callstack.Protocol.Commands.Inert.{inert, IsFramed}
use callstack.Protocol.Commands.Framing.{Request, to_unblock, build, build-Framed}
use callstack.Protocol.Executor.Framing.{AreShown, lines_then, collect_payload}

abbrev read_message : Command
read_message = record { text = codes "AT+CMGR=1"; expect = codes "OK" ∷ [] }

abbrev signal : Command
signal = record { text = codes "AT+CSQ"; expect = codes "OK" ∷ [] }

abbrev signal_reads : List Read
signal_reads =
    Read.line (codes "AT+CSQ")
    ∷ Read.line (codes "RING")
    ∷ Read.line (codes "+CMT: x")
    ∷ Read.line (codes "a text")
    ∷ Read.line (codes "+CSQ: 20,0")
    ∷ Read.line (codes "OK")
    ∷ []

collect_response-Ended_example : Ended signal (collect_response signal collecting signal_reads)
collect_response-Ended_example =
    collect_response-Ended signal collecting signal_reads (IsCollecting-start signal)

abbrev busy : Executor
busy = record {
  reader_active = true;
  command_in_flight = false;
  line_queue = Read.line (codes "OK") ∷ [];
  written = [];
}

abbrev stored : List Text
stored = codes "+CMGR: 0,,24" ∷ codes "RING" ∷ []

collect_payload_example :
    (shown : List Text) × AreShown read_message (stored ++ codes "OK" ∷ []) shown
    × ((collect_response read_message collecting
          (lines_then stored (Read.line (codes "OK") ∷ []))).0
        ≡ Result.response (record { success = true; lines = shown }))
    × ((collect_response read_message collecting
          (lines_then stored (Read.line (codes "OK") ∷ []))).1.dispatched
        ≡ [])
unfolding strip lstrip rstrip is_space is_in starts_with_any is_final_error
    is_sensitive_command_line command_preserves_urc_like_payload line_matches_success
    line_matches_error text_eq starts_with
collect_payload_example =
    collect_payload read_message stored (codes "OK") [] refl
      ((refl, refl, refl, refl), ((refl, refl, refl, refl), tt)) (refl, refl) refl

abbrev unblock : Request
unblock = to_unblock (codes "12345678") (codes "0000")

digits_inert : (c : ℕ) → is_digit c ≡ true → inert c ≡ true
digits_inert c h = ground arith

build-Framed_example : IsFramed 4 (codes "AT+CPIN=\"12345678\",\"0000\"")
unfolding build cpin_puk is_code
build-Framed_example =
    build-Framed is_digit unblock (codes "AT+CPIN=\"12345678\",\"0000\"") digits_inert refl
