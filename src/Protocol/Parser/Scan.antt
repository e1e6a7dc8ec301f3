-- ===== src/Protocol/Parser/Scan.antt =====
-- The pieces of the regular expressions of callstack/protocol/parser.py.
use callstack.Prelude.{
  ℕ, ◌+◌, ◌-◌, ◌*◌, Bool, true, false, not, ◌&&◌, [], ◌∷◌, Option, none, some, Text, ◌==◌,
  if◌then◌else◌, ◌>>=◌,
}
use callstack.Pdu.Phone.{is_digit}
use callstack.Protocol.Lines.{lstrip}
use callstack.Protocol.Commands.{is_empty}

-- What follows a literal.
unfoldable pub after : Text → Text → Option Text
after [] t = some t
after (c ∷ s) [] = none
after (c ∷ s) (d ∷ t) = let rest = after s t in if c == d then rest else none

-- `(\d+)` once a digit is there: the number of the group and what follows.
unfoldable pub digits_from : ℕ → Text → ℕ × Text
digits_from n [] = (n, [])
digits_from n (c ∷ s) =
    let rest = digits_from (10 * n + (c - b'0')) s in if is_digit c then rest else (n, c ∷ s)

-- `int(m.group())` of a `(\d+)`, and what follows.
unfoldable pub number : Text → Option (ℕ × Text)
number [] = none
number (c ∷ s) = if is_digit c then some (digits_from (c - b'0') s) else none

-- `[^"]*"`, the group and what follows.
unfoldable pub up_to_mark : Text → Option (Text × Text)
up_to_mark [] = none
up_to_mark (c ∷ s) =
    let rest = up_to_mark s in
    if c == b'"' then some ([], s) else (do q ← rest; some (c ∷ q.0, q.1))

-- `"([^"]*)"`
unfoldable pub quoted : Text → Option (Text × Text)
quoted s = do t ← after (b'"' ∷ []) s; up_to_mark t

-- `\s*,\s*`
unfoldable pub comma : Text → Option Text
comma s = do t ← after (b',' ∷ []) (lstrip s); some (lstrip t)

-- `$`: the end, or the end but for one line feed.
unfoldable pub at_end : Text → Bool
at_end [] = true
at_end (c ∷ s) = (c == 10) && is_empty s

-- `\s*$`
unfoldable pub blank_end : Text → Bool
blank_end s = is_empty (lstrip s)

-- `.*$`
unfoldable pub one_line : Text → Bool
one_line [] = true
one_line (c ∷ s) = if c == 10 then is_empty s else one_line s

-- The group of `(.*)$`.
unfoldable pub without_newline : Text → Text
without_newline [] = []
without_newline (c ∷ s) = if at_end (c ∷ s) then [] else c ∷ without_newline s

-- `.$` somewhere: the last character, but for one line feed, is no line feed.
unfoldable pub ends_inside : Text → Bool
ends_inside [] = false
ends_inside (c ∷ s) = let rest = ends_inside s in if at_end s then not (c == 10) else rest
