-- ===== src/Protocol/Lines.antt =====
-- callstack/protocol/executor.py and urc.py: what a line of the modem is. Lines are decoded as ASCII
-- with a replacement character, so case and digits are those of ASCII.
use callstack.Prelude.{
  ℕ, ◌-◌, Bool, ◌&&◌, ◌||◌, List, [], ◌∷◌, Text, codes, text_eq, starts_with, any, map, leb, ◌==◌,
  if◌then◌else◌,
}

-- `str.isspace` of one character.
unfoldable pub is_space : ℕ → Bool
is_space c =
    (leb 9 c && leb c 13)
    || (leb 28 c && leb c 32)
    || (c == 0x85)
    || (c == 0xa0)
    || (c == 0x1680)
    || (leb 0x2000 c && leb c 0x200a)
    || (c == 0x2028)
    || (c == 0x2029)
    || (c == 0x202f)
    || (c == 0x205f)
    || (c == 0x3000)

unfoldable pub lstrip : Text → Text
lstrip [] = []
lstrip (c ∷ s) = let rest = lstrip s in if is_space c then rest else c ∷ s

unfoldable pub rstrip : Text → Text
rstrip [] = []
rstrip (c ∷ s) = elim (rstrip s) [ [] ↦ if is_space c then [] else c ∷ [] | d ∷ t ↦ c ∷ d ∷ t ]

-- `_normalize_control_line`: `line.strip()`
unfoldable pub strip : Text → Text
strip s = rstrip (lstrip s)

-- `line in group`
unfoldable pub is_in : Text → List Text → Bool
is_in line group = any (text_eq line) group

-- `any(line.startswith(p) for p in prefixes)`
unfoldable pub starts_with_any : List Text → Text → Bool
starts_with_any prefixes line = any (λ p. starts_with p line) prefixes

-- `URCDispatcher.URC_PREFIXES`
abbrev pub urc_prefixes : List Text
urc_prefixes =
    codes "RING"
    ∷ codes "+CLIP"
    ∷ codes "+DTMF"
    ∷ codes "RXDTMF"
    ∷ codes "+CMT"
    ∷ codes "+CMTI"
    ∷ codes "+CDSI"
    ∷ codes "VOICE CALL"
    ∷ codes "NO CARRIER"
    ∷ codes "BUSY"
    ∷ codes "NO ANSWER"
    ∷ codes "NO DIALTONE"
    ∷ codes "NO DIAL TONE"
    ∷ codes "+CUSD"
    ∷ codes "+CREG"
    ∷ codes "+CGREG"
    ∷ codes "+CEREG"
    ∷ []

unfoldable pub is_urc : Text → Bool
is_urc line = starts_with_any urc_prefixes line

-- `MULTILINE_PREFIXES` has the one entry.
unfoldable pub needs_followup : Text → Bool
needs_followup line = starts_with_any (codes "+CMT:" ∷ []) line

abbrev pub final_dial_failure : List Text
final_dial_failure =
    codes "BUSY"
    ∷ codes "NO CARRIER"
    ∷ codes "NO ANSWER"
    ∷ codes "NO DIALTONE"
    ∷ codes "NO DIAL TONE"
    ∷ []

abbrev pub final_error_prefixes : List Text
final_error_prefixes = codes "+CME ERROR:" ∷ codes "+CMS ERROR:" ∷ []

-- `line in FINAL_ERROR or any(line.startswith(e) for e in FINAL_ERROR_PREFIXES)`
unfoldable pub is_final_error : Text → Bool
is_final_error line = is_in line (codes "ERROR" ∷ []) || starts_with_any final_error_prefixes line

unfoldable pub is_final_result_line : Text → Bool
is_final_result_line line =
    is_in line (codes "OK" ∷ []) || is_in line final_dial_failure || is_final_error line

upper : ℕ → ℕ
upper c = if leb b'a' c && leb c b'z' then c - 32 else c

-- `line.upper().startswith("AT+CPIN=")`
unfoldable pub is_sensitive_command_line : Text → Bool
unfolding upper
is_sensitive_command_line line = starts_with (codes "AT+CPIN=") (map upper line)
