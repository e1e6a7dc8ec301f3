-- ===== src/Sms/Service/Replies.antt =====
-- What callstack/sms/service.py reads in the modem's answers: messages and status reports. The
-- parsing of times, `int` and the fields of `csv.reader` are parameters; a message reference is from 0 to
-- 255, so its `int` is a natural number.
use callstack.Prelude.{
  ℕ, zero, suc, Bool, true, false, ◌&&◌, ◌||◌, List, [], ◌∷◌, ◌++◌, Option, none, some, Text, codes,
  text_eq, starts_with, drop, length, leb, ltb, ◌==◌, if◌then◌else◌, ◌>>=◌,
}
use callstack.Protocol.Commands.{is_empty, ℤ, pos, negsuc}
use callstack.Protocol.Lines.{strip, lstrip}
use callstack.Protocol.Parser.Scan.{after, number, quoted, at_end}
use callstack.Sms.Types.{Sms}

-- `c?` of a regular expression.
abbrev pub skip : ℕ → Text → Text
skip c [] = []
skip c (d ∷ t) = if d == c then t else d ∷ t

-- `[^"]*`, and what follows.
unfoldable pub unquoted : Text → Text × Text
unquoted [] = ([], [])
unquoted (c ∷ t) = let rest = unquoted t in if c == b'"' then ([], c ∷ t) else (c ∷ rest.0, rest.1)

-- `,?"?([^"]*)"?$`
unfoldable pub last_group : Text → Option Text
last_group s =
    let g = unquoted (skip b'"' (skip b',' s)) in if at_end (skip b'"' g.1) then some g.0 else none

-- The status, the sender and the time of a header.
pub record Header : Type 0 where
  pub status : Text
  pub sender : Text
  pub time : Text

-- `"([^"]*)","([^"]*)","([^"]*)",?"?([^"]*)"?$`, and the time: the last group, or the one before.
unfoldable pub header_groups : Text → Option Header
header_groups s = do
  a ← quoted s
  t ← after (codes ",") a.1
  b ← quoted t
  u ← after (codes ",") b.1
  c ← quoted u
  d ← last_group c.1
  some (record { status = a.0; sender = b.0; time = if is_empty d then c.0 else d })

-- `_CMGR_RE`
unfoldable pub cmgr_header : Text → Option Header
cmgr_header line = do s ← after (codes "+CMGR:") line; header_groups (lstrip s)

-- `_CMGL_RE`, with the index.
unfoldable pub cmgl_header : Text → Option (ℕ × Header)
cmgl_header line = do
  s ← after (codes "+CMGL:") line
  n ← number (lstrip s)
  t ← after (codes ",") n.1
  h ← header_groups t
  some (n.0, h)

-- `_is_final_result_code`
unfoldable pub is_final_result_code : Text → Bool
is_final_result_code line =
    text_eq line (codes "OK")
    || text_eq line (codes "ERROR")
    || starts_with (codes "+CME ERROR:") line
    || starts_with (codes "+CMS ERROR:") line

abbrev pub is_cmgl_header : Text → Bool
is_cmgl_header line = elim (cmgl_header line) [ none ↦ false | some h ↦ true ]

-- `_collect_message_body`: the lines of the body, and the lines from where it ends.
unfoldable pub body_lines : Bool → List Text → List Text × List Text
body_lines stops [] = ([], [])
body_lines stops (line ∷ lines) =
    let rest = body_lines stops lines in
    if is_final_result_code line || (stops && is_cmgl_header line)
    then ([], line ∷ lines)
    else (line ∷ rest.0, rest.1)

-- `"\n".join`
unfoldable pub join_lines : List Text → Text
join_lines [] = []
join_lines (line ∷ []) = line
join_lines (line ∷ next ∷ lines) = line ++ (10 ∷ join_lines (next ∷ lines))

module _ (parse_timestamp : Text → Option ℕ) where
  unfoldable pub message_of : Header → ℕ → List Text → Sms
  message_of h index lines = record {
    sender = h.sender;
    recipient = [];
    body = join_lines lines;
    timestamp = parse_timestamp h.time;
    status = h.status;
    reference = 0;
    id = none;
    storage_index = some index;
  }

  -- `_parse_single_message`
  unfoldable pub parse_single_message : List Text → ℕ → Option Sms
  parse_single_message [] index = none
  parse_single_message (line ∷ lines) index = elim (cmgr_header line) [
    | none ↦ parse_single_message lines index
    | some h ↦ some (message_of h index (body_lines false lines).0)
  ]

  -- `_parse_message_list`, a round for each line at most.
  unfoldable pub parse_from : ℕ → List Text → List Sms
  parse_from zero lines = []
  parse_from (suc fuel) [] = []
  parse_from (suc fuel) (line ∷ lines) = elim (cmgl_header line) [
    | none ↦ parse_from fuel lines
    | some (index, h) ↦
        message_of h index (body_lines true lines).0 ∷ parse_from fuel (body_lines true lines).1
  ]

  unfoldable pub parse_message_list : List Text → List Sms
  parse_message_list lines = parse_from (length lines) lines

-- The grouping of TP-ST.
unfoldable pub status_of_code : ℤ → Text
status_of_code (pos code) =
    if leb code 0x1f
    then codes "delivered"
    else if leb code 0x3f
    then codes "pending"
    else codes "failed"
status_of_code (negsuc n) = codes "failed"

-- `fields[-1]`
abbrev pub last_field : Text → List Text → Text
last_field f [] = f
last_field f (g ∷ fields) = last_field g fields

pub record StatusReport : Type 0 where
  pub reference : ℕ
  pub recipient : Text
  pub status : Text

module _ (csv_fields : Text → Option (List Text)) (reference_number : Text → Option ℕ)
    (int : Text → Option ℤ) where
  -- The fields of a report: seven at least.
  unfoldable pub report_of : List Text → Option StatusReport
  report_of (first ∷ second ∷ third ∷ fields) = if ltb (length fields) 4 then none else (do
    reference ← reference_number (strip second)
    code ← int (strip (last_field third fields))
    some (record { reference = reference; recipient = strip third; status = status_of_code code }))
  report_of fields = none

  -- `_parse_cmgr_status_report`
  unfoldable pub parse_cmgr_status_report : Text → Option StatusReport
  parse_cmgr_status_report line =
      if starts_with (codes "+CMGR:") line
      then (do fields ← csv_fields (strip (drop 6 line)); report_of fields)
      else none
