-- ===== src/Protocol/Parser.antt =====
-- callstack/protocol/parser.py: `ATResponseParser`. The regular expressions are scanners on a line of
-- the modem: `\d` is an ASCII digit there, and `\s` what `is_space` accepts. None of them has two
-- ways to match, so that a scanner takes each run of spaces or digits whole. The payload of a USSD
-- answer is in Payload.
pub mod Scan
pub mod Payload
pub mod Printed
pub mod RoundTrip
pub mod Ucs2
use callstack.Prelude.{
  ℕ, zero, suc, ◌+◌, ◌-◌, ◌*◌, Bool, true, false, not, ◌&&◌, ◌||◌, List, [], ◌∷◌, ◌++◌, Option,
  none, some, Text, codes, leb, ◌==◌, if◌then◌else◌, ◌>>=◌,
}
use callstack.Pdu.Phone.{is_digit}
use callstack.Protocol.Lines.{is_space, lstrip, strip}
use callstack.Protocol.Commands.{is_empty}
use callstack.Protocol.Parser.Scan.{
  after, number, quoted, comma, at_end, one_line, ends_inside, without_newline, blank_end,
}
use callstack.Protocol.Parser.Payload.{decode_cusd_message}

-- `ParsedResponse`, whose values stay empty.
pub record ParsedResponse : Type 0 where
  pub command : Text
  pub raw : Text

-- `_CSQ_RE`
unfoldable pub parse_signal_quality : Text → Option (ℕ × ℕ)
parse_signal_quality line = do
  s ← after (codes "+CSQ:") line
  r ← number (lstrip s)
  t ← comma r.1
  b ← number t
  if at_end b.1 then some (r.0, b.0) else none

-- Where a scan of the fields that follow the status stands: behind a comma, in a number, behind the
-- mark that opens a string, in the string, behind it, or behind a space after a field.
pub data Field : Type 0 where
  fresh digits opened hex past closed : Field

abbrev pub is_hex : ℕ → Bool
is_hex c = is_digit c || (leb b'A' c && leb c b'F') || (leb b'a' c && leb c b'f')

-- The step to the next comma.
unfoldable pub to_comma : ℕ → Option Field
to_comma c = if c == b',' then some Field.fresh else if is_space c then some Field.closed else none

-- A character of `(?:\s*,\s*(?:"[0-9A-Fa-f]+"|\d+)?)+`.
unfoldable pub next_field : Field → ℕ → Option Field
next_field Field.fresh c =
    if is_space c || (c == b',')
    then some Field.fresh
    else if is_digit c
    then some Field.digits
    else if c == b'"'
    then some Field.opened
    else none
next_field Field.digits c = if is_digit c then some Field.digits else to_comma c
next_field Field.opened c = if is_hex c then some Field.hex else none
next_field Field.hex c =
    if is_hex c then some Field.hex else if c == b'"' then some Field.past else none
next_field Field.past c = to_comma c
next_field Field.closed c = to_comma c

abbrev pub may_end : Field → Bool
may_end Field.fresh = true
may_end Field.digits = true
may_end Field.past = true
may_end _ = false

-- The rest of the fields, and `$`.
unfoldable pub fields : Field → Text → Bool
fields f [] = may_end f
fields f (c ∷ s) =
    (may_end f && at_end (c ∷ s)) || elim (next_field f c) [ none ↦ false | some g ↦ fields g s ]

-- `[0-9A-Fa-f]+"`, with a digit before or not.
unfoldable pub hex_string : Bool → Text → Bool
hex_string some_digit [] = false
hex_string some_digit (c ∷ s) =
    let rest = hex_string true s in if is_hex c then rest else some_digit && (c == b'"')

-- `.*(?:"[0-9A-Fa-f]+"|\d+)`
unfoldable pub has_field : Text → Bool
has_field [] = false
has_field (c ∷ s) =
    not (c == 10) && (is_digit c || ((c == b'"') && hex_string false s) || has_field s)

-- The fields after the status, or none: there is one that is not empty.
unfoldable pub verbose_end : Text → Bool
verbose_end s =
    at_end s
    || (elim (after (b',' ∷ []) (lstrip s)) [ none ↦ false | some t ↦ has_field t ]
        && fields Field.past s)

-- `\+C(?:G|E)?REG:`
unfoldable pub after_creg : Text → Option Text
after_creg line = elim (after (codes "+CREG:") line) [
  | some s ↦ some s
  | none ↦ elim (after (codes "+CGREG:") line) [
    | some s ↦ some s
    | none ↦ after (codes "+CEREG:") line
  ]
]

-- `_CREG_RE`: the mode and the status, or the status alone.
unfoldable pub parse_registration : Text → Option (ℕ × ℕ)
parse_registration line = do
  s ← after_creg line
  m ← number (lstrip s)
  elim (comma m.1) [
    | none ↦ if at_end m.1 then some (0, m.0) else none
    | some t ↦ do r ← number t; if verbose_end r.1 then some (m.0, r.0) else none
  ]

-- `_CLIP_RE`
unfoldable pub parse_clip : Text → Option Text
parse_clip line = do s ← after (codes "+CLIP:") line; q ← quoted (lstrip s); some q.0

-- `_CMGS_RE`
unfoldable pub parse_cmgs : Text → Option ℕ
parse_cmgs line = do s ← after (codes "+CMGS:") line; r ← number (lstrip s); some r.0

-- `"([^"]*)"\s*,\s*(\d+)\s*$`, of `_CMTI_RE` and `_CDSI_RE`.
unfoldable pub stored : Text → Option (Text × ℕ)
stored s = do
  q ← quoted s
  t ← comma q.1
  r ← number t
  if blank_end r.1 then some (q.0, r.0) else none

unfoldable pub parse_cmti : Text → Option (Text × ℕ)
parse_cmti line = do s ← after (codes "+CMTI:") line; stored (lstrip s)

-- `_CMT_RE`
unfoldable pub parse_cmt : Text → Option Text
parse_cmt line = do s ← after (codes "+CMT:") line; q ← quoted (lstrip s); some q.0

-- `_CPIN_RE` and `strip`. Where only spaces follow, the group takes one of them that is no line feed.
unfoldable pub parse_cpin : Text → Option Text
parse_cpin line = do
  s ← after (codes "+CPIN:") line
  if is_empty (lstrip s)
      then (if ends_inside s then some [] else none)
      else if one_line (lstrip s)
      then some (strip s)
      else none

-- The optional groups of `_CUSD_RE`: the message, and the encoding.
unfoldable pub cusd_encoding : Text → Option ℕ
cusd_encoding s = elim (comma s) [
  | none ↦ if blank_end s then some 15 else none
  | some t ↦ do r ← number t; if blank_end r.1 then some r.0 else none
]

unfoldable pub cusd_fields : Text → Option (Text × ℕ)
cusd_fields s = elim (comma s) [
  | none ↦ if blank_end s then some ([], 15) else none
  | some t ↦ do q ← quoted t; encoding ← cusd_encoding q.1; some (q.0, encoding)
]

unfoldable pub parse_cusd : Text → Option (ℕ × Text × ℕ)
parse_cusd line = do
  s ← after (codes "+CUSD:") line
  r ← number (lstrip s)
  f ← cusd_fields r.1
  some (r.0, decode_cusd_message f.0 f.1, f.1)

unfoldable pub parse_cdsi : Text → Option (Text × ℕ)
parse_cdsi line = do s ← after (codes "+CDSI:") line; stored (lstrip s)

-- `[A-Z]+:`, with a letter before or not: the letters and what follows.
unfoldable pub letters : Bool → Text → Option (Text × Text)
letters some_letter [] = none
letters some_letter (c ∷ s) =
    let rest = letters true s in
    if leb b'A' c && leb c b'Z'
    then (do r ← rest; some (c ∷ r.0, r.1))
    else if some_letter && (c == b':')
    then some ([], s)
    else none

-- `_PREFIX_RE`
unfoldable pub parse_prefix : Text → Option ParsedResponse
parse_prefix line = do
  s ← after (b'+' ∷ []) line
  r ← letters false s
  if one_line (lstrip r.1)
      then some (record { command = r.0; raw = without_newline (lstrip r.1) })
      else none
