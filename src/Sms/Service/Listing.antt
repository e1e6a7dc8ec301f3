-- ===== src/Sms/Service/Listing.antt =====
-- A listing of messages as the modem prints it, and what callstack/sms/service.py parses of it.
use callstack.Prelude.{
  ℕ, zero, suc, if_true, if_false, text_eq, ◌≤◌, ◌≡◌, refl, ap, sym, append-nil, ◌∙◌, Bool, true,
  false, not, ◌&&◌, ◌||◌, List, [], ◌∷◌, ◌++◌, map, Option, none, some, Text, codes, all, All,
  length, length-append, arith, if◌then◌else◌,
}
use callstack.Pdu.Phone.{is_digit}
use callstack.Protocol.Commands.{is_empty, decimal}
use callstack.Protocol.Lines.{is_space, lstrip}
use callstack.Protocol.Parser.Scan.{after, at_end}
use callstack.Protocol.Parser.Printed.{
  after-append, unmarked, quoted-append, decimal-head, number-decimal,
}
use callstack.Sms.Types.{Sms}
use callstack.Sms.Service.Replies.{
  unquoted, last_group, Header, header_groups, cmgl_header, is_final_result_code, is_cmgl_header,
  body_lines, message_of, join_lines, parse_from, parse_message_list,
}

abbrev in_marks : Text → Text → Text
in_marks t s = b'"' ∷ (t ++ (b'"' ∷ s))

-- `"status","sender","","time"`
abbrev pub printed_groups : Header → Text
printed_groups h =
    in_marks h.status (b',' ∷ in_marks h.sender (b',' ∷ in_marks [] (b',' ∷ in_marks h.time [])))

abbrev pub IsUnmarked : Header → Type 0
IsUnmarked h =
    (all unmarked h.status ≡ true) × (all unmarked h.sender ≡ true) × (all unmarked h.time ≡ true)

unquoted-append : (t s : Text) → all unmarked t ≡ true → unquoted (t ++ (b'"' ∷ s)) ≡ (t, b'"' ∷ s)
unfolding unquoted
unquoted-append [] s h = refl
unquoted-append (c ∷ t) s h = rw (unquoted-append t s (ground arith)) (ground arith)

last_group_lem : (t : Text) → all unmarked t ≡ true → last_group (b',' ∷ in_marks t []) ≡ some t
unfolding last_group at_end
last_group_lem t h = rw (unquoted-append t [] h) refl

or_same : (t : Text) → (if is_empty t then [] else t) ≡ t
or_same [] = refl
or_same (c ∷ t) = refl

header_groups_lem : (h : Header) → IsUnmarked h → header_groups (printed_groups h) ≡ some h
unfolding header_groups after
header_groups_lem h (a, b, c) =
    rw
      (
        quoted-append h.status
            (b',' ∷ in_marks h.sender (b',' ∷ in_marks [] (b',' ∷ in_marks h.time []))) a,
        after,
      )
      (rw (quoted-append h.sender (b',' ∷ in_marks [] (b',' ∷ in_marks h.time [])) b, after)
        (rw (quoted-append [] (b',' ∷ in_marks h.time []) refl)
          (rw (last_group_lem h.time c) (ap (λ t. some (record h { time = t })) (or_same h.time)))))

-- A message as it is listed: its index, its header and the lines of its body.
pub record Entry : Type 0 where
  pub index : ℕ
  pub header : Header
  pub lines : List Text

abbrev pub printed_header : Entry → Text
printed_header e = codes "+CMGL:" ++ (b' ' ∷ (decimal e.index ++ (b',' ∷ printed_groups e.header)))

-- The lines of a body, with a line feed between two of them.
abbrev pub each_below : List Text → Text
each_below [] = []
each_below (line ∷ lines) = (10 ∷ line) ++ each_below lines

abbrev pub body_of : List Text → Text
body_of [] = []
body_of (line ∷ lines) = line ++ each_below lines

-- The message that is listed.
abbrev pub listed_sms : (Text → Option ℕ) → Entry → Sms
listed_sms time e = record {
  sender = e.header.sender;
  recipient = [];
  body = body_of e.lines;
  timestamp = time e.header.time;
  status = e.header.status;
  reference = 0;
  id = none;
  storage_index = some e.index;
}

-- The messages, and the final result.
abbrev pub printed_list : List Entry → List Text
printed_list [] = codes "OK" ∷ []
printed_list (e ∷ es) = printed_header e ∷ (e.lines ++ printed_list es)

-- No line of the body is a final result or the header of a message.
abbrev pub is_plain : Text → Bool
is_plain line = not (is_final_result_code line || is_cmgl_header line)

abbrev pub IsEntry : Entry → Type 0
IsEntry e = IsUnmarked e.header × (all is_plain e.lines ≡ true)

digit-space : (c : ℕ) → is_digit c ≡ true → is_space c ≡ false
unfolding is_space
digit-space c h = ground arith

lstrip-decimal : (n : ℕ) (s : Text) → lstrip (b' ' ∷ (decimal n ++ s)) ≡ decimal n ++ s
unfolding lstrip is_space
lstrip-decimal n s = let (c, t, e, d) = decimal-head n in rw e (if_false _ _ _ (digit-space c d))

cmgl_header_lem :
    (e : Entry) → IsUnmarked e.header → cmgl_header (printed_header e) ≡ some (e.index, e.header)
unfolding cmgl_header
cmgl_header_lem e h =
    rw
      (after-append (codes "+CMGL:") (b' ' ∷ (decimal e.index ++ (b',' ∷ printed_groups e.header))))
      (rw (lstrip-decimal e.index (b',' ∷ printed_groups e.header)) (
        rw (number-decimal e.index (b',' ∷ printed_groups e.header) refl) (
          rw (after-append (codes ",") (printed_groups e.header))
            (rw (header_groups_lem e.header h) refl))))

-- The lines behind a body begin with its end.
abbrev Ends : List Text → Type 0
Ends [] = Unit
Ends (line ∷ lines) = (is_final_result_code line || is_cmgl_header line) ≡ true

body_lines_lem :
    (lines rest : List Text)
    → all is_plain lines ≡ true
    → Ends rest
    → body_lines true (lines ++ rest) ≡ (lines, rest)
unfolding body_lines
body_lines_lem [] [] h k = refl
body_lines_lem [] (line ∷ rest) h k = if_true _ _ _ k
body_lines_lem (line ∷ lines) rest h k =
    if_false (is_final_result_code line || true && is_cmgl_header line) _ _ (ground arith)
    ∙ ap (λ (r : List Text × List Text). (line ∷ r.0, r.1))
        (body_lines_lem lines rest (ground arith) k)

or_right : (a : Bool) → (a || true) ≡ true
or_right true = refl
or_right false = refl

printed_list-Ends : (es : List Entry) → All IsEntry es → Ends (printed_list es)
unfolding is_final_result_code text_eq
printed_list-Ends [] h = refl
printed_list-Ends (e ∷ es) h =
    ap
      (λ (o : Option (ℕ × Header)).
        is_final_result_code (printed_header e) || elim o [ none ↦ false | some g ↦ true ])
      (cmgl_header_lem e h.0.0)
    ∙ or_right (is_final_result_code (printed_header e))

parse_nothing : (time : Text → Option ℕ) (fuel : ℕ) → parse_from time fuel [] ≡ []
unfolding parse_from
parse_nothing time zero = refl
parse_nothing time (suc fuel) = refl

final_header : cmgl_header (codes "OK") ≡ none
unfolding cmgl_header after
final_header = refl

join_lines-body : (lines : List Text) → join_lines lines ≡ body_of lines
unfolding join_lines
join_lines-body [] = refl
join_lines-body (line ∷ []) = sym (append-nil line)
join_lines-body (line ∷ next ∷ lines) = ap (λ t. line ++ (10 ∷ t)) (join_lines-body (next ∷ lines))

module _ (time : Text → Option ℕ) where
  message_of-listed : (e : Entry) → message_of time e.header e.index e.lines ≡ listed_sms time e
  unfolding message_of
  message_of-listed e = ap (λ t. record (listed_sms time e) { body = t }) (join_lines-body e.lines)

  message_of-all :
      (es : List Entry)
      → map (λ e. message_of time e.header e.index e.lines) es ≡ map (listed_sms time) es
  message_of-all [] = refl
  message_of-all (e ∷ es) = cc (message_of-listed e, message_of-all es)

  -- What is parsed of one entry, and the lines that are left.
  entry_first :
      (fuel : ℕ) (e : Entry) (rest : List Text)
      → IsEntry e
      → Ends rest
      → parse_from time (suc fuel) (printed_header e ∷ (e.lines ++ rest))
        ≡ message_of time e.header e.index e.lines ∷ parse_from time fuel rest
  unfolding parse_from
  entry_first fuel e rest h k =
      ap
        (λ (o : Option (ℕ × Header)).
          let r = body_lines true (e.lines ++ rest) in
          elim o as (λ x. List Sms) [
            | none ↦ parse_from time fuel (e.lines ++ rest)
            | some g ↦ message_of time g.1 g.0 r.0 ∷ parse_from time fuel r.1
          ])
        (cmgl_header_lem e h.0)
      ∙ ap
          (λ (r : List Text × List Text).
            message_of time e.header e.index r.0 ∷ parse_from time fuel r.1)
          (body_lines_lem e.lines rest h.1 k)

  parse_from_lem :
      (fuel : ℕ) (es : List Entry)
      → All IsEntry es
      → length (printed_list es) ≤ fuel
      → parse_from time fuel (printed_list es)
        ≡ map (λ e. message_of time e.header e.index e.lines) es
  unfolding parse_from
  parse_from_lem zero [] h l = absurd (omega arith)
  parse_from_lem zero (e ∷ es) h l = absurd (omega arith)
  parse_from_lem (suc fuel) [] h l =
      ap
        (λ (o : Option (ℕ × Header)). elim o as (λ x. List Sms) [
          | none ↦ parse_from time fuel []
          | some g ↦
              message_of time g.1 g.0 (body_lines true []).0
              ∷ parse_from time fuel (body_lines true []).1
        ])
        final_header
      ∙ parse_nothing time fuel
  parse_from_lem (suc fuel) (e ∷ es) (h, hs) l =
      entry_first fuel e (printed_list es) h (printed_list-Ends es hs)
      ∙ ap (λ ms. message_of time e.header e.index e.lines ∷ ms)
          (parse_from_lem fuel es hs (omega (arith, length-append e.lines (printed_list es))))

  -- A listing of any number of messages, whose texts hold no quotation mark and whose bodies no line
  -- that is a final result or a header, is parsed into these messages, in their order, each with its
  -- index, the sender and the status of its header, the time that is parsed of it, and the lines of
  -- its body with a line feed between two of them.
  pub parse-printed_list :
      (es : List Entry)
      → All IsEntry es
      → parse_message_list time (printed_list es) ≡ map (listed_sms time) es
  unfolding parse_message_list
  parse-printed_list es h =
      parse_from_lem (length (printed_list es)) es h (omega arith) ∙ message_of-all es
