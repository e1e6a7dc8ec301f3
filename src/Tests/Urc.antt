-- ===== src/Tests/Urc.antt =====
-- The parser and the dispatcher of unsolicited codes on concrete lines (callstack/protocol/parser.py, urc.py).
use callstack.Protocol.Parser.Scan.{after, at_end, comma, digits_from, number}
use callstack.Prelude.{starts_with, ◌≡◌, refl, List, [], ◌∷◌, some, Text, codes, inl, inr, arith}
use callstack.Protocol.Lines.{lstrip, starts_with_any, is_space}
use callstack.Protocol.Parser.{
  after_creg, fields, has_field, hex_string, next_field, to_comma, verbose_end, parse_registration,
  parse_cusd,
}
use callstack.Protocol.Parser.Ucs2.{print_ucs2}
use callstack.Protocol.Parser.RoundTrip.{print_cusd, parse_cusd-ucs2}
use callstack.Protocol.Urc.{before_colon, log_safe_urc, UrcDispatcher}
use callstack.Protocol.Urc.Logged.{log_safe_urc_private}

abbrev idle_dispatcher : UrcDispatcher
idle_dispatcher = record {
  capture_hooks = record { prefixes = codes "+CDSI" ∷ []; lines = [] } ∷ [];
  emitted = [];
}

abbrev answers : List (Text × Text)
answers = (codes "RING", []) ∷ (codes "+CUSD: 0,\"hi\"", []) ∷ []

log_safe_urc_private_example :
    log_safe_urc (codes "+CREG: 2,1,\"00C3\",\"A0\"")
    ≡ log_safe_urc (codes "+CREG: 2,1,\"0001\",\"17\",7")
unfolding starts_with_any starts_with before_colon parse_registration after_creg after lstrip
    is_space number digits_from at_end comma verbose_end has_field fields hex_string next_field
    to_comma
log_safe_urc_private_example =
    log_safe_urc_private (codes "+CREG: 2,1,\"00C3\",\"A0\"") (codes "+CREG: 2,1,\"0001\",\"17\",7")
      refl refl refl refl

parse_cusd-ucs2_example :
    parse_cusd
      (print_cusd 0 (print_ucs2 (0x20ac ∷ 0x1f600 ∷ [])) 72 (32 ∷ []) [] [] [] (32 ∷ []) [])
    ≡ some (0, 0x20ac ∷ 0x1f600 ∷ [], 72)
unfolding is_space
parse_cusd-ucs2_example =
    parse_cusd-ucs2 0 (0x20ac ∷ 0x1f600 ∷ []) (32 ∷ []) [] [] [] (32 ∷ []) []
      (inl (omega arith), (inr (omega arith, omega arith), tt))
      (refl, (refl, (refl, (refl, (refl, (refl, tt))))))
