-- ===== src/Privacy.antt =====
-- callstack/privacy.py: what logs show of numbers and addresses. `\d`, which looks into Python's Unicode
-- tables, is a parameter, and so is `urlsplit`, by the parts that the code reads of its result.
pub mod Shown
use callstack.Prelude.{
  ℕ, suc, ◌+◌, ◌-◌, Bool, true, false, not, ◌&&◌, ◌||◌, List, [], ◌∷◌, ◌++◌, Option, none, some,
  Text, codes, text_eq, starts_with, length, drop, leb, ◌==◌, if◌then◌else◌,
}
use callstack.Protocol.Lines.{lstrip}
use callstack.Protocol.Commands.{decimal, is_empty}

-- The parts of an address: the host name and the port are missing, or the port is no number.
pub record SplitUrl : Type 0 where
  pub scheme : Text
  pub hostname : Option Text
  pub port : Option ℕ
  pub path : Text
  pub query : Text

module _ (is_decimal : ℕ → Bool) where
  -- `_DIGIT_RE.findall`
  unfoldable pub digits_of : Text → Text
  digits_of [] = []
  digits_of (c ∷ s) = let rest = digits_of s in if is_decimal c then c ∷ rest else rest

  abbrev pub plus_of : Text → Text
  plus_of s = if starts_with (codes "+") (lstrip s) then codes "+" else []

  -- The last four digits.
  abbrev pub suffix_of : Text → Text
  suffix_of digits = drop (length digits - 4) digits

  unfoldable pub redact_text : Text → Text
  redact_text s =
      let digits = digits_of s in
      if is_empty digits
      then s
      else if leb (length digits) 4
      then plus_of s ++ codes "***"
      else plus_of s ++ (codes "***" ++ suffix_of digits)

  unfoldable pub redact_phone_number : Option Text → Text
  redact_phone_number none = codes "unknown"
  redact_phone_number (some s) = if is_empty s then codes "unknown" else redact_text s

  -- `\d{7,}` somewhere, with so many digits just before.
  unfoldable pub has_long_run : ℕ → Text → Bool
  has_long_run n [] = leb 7 n
  has_long_run n (c ∷ s) = leb 7 n || has_long_run (if is_decimal c then suc n else 0) s

  unfoldable pub redact_label : Text → Text
  redact_label label = if has_long_run 0 label then codes "[redacted]" else label

  -- `hostname.split(".")`, with what is read of a label, joined again.
  unfoldable pub redact_labels : Text → Text → Text
  redact_labels label [] = redact_label label
  redact_labels label (c ∷ s) = elim (c == b'.') [
    | true ↦ redact_label label ++ (c ∷ redact_labels [] s)
    | false ↦ redact_labels (label ++ c ∷ []) s
  ]

  unfoldable pub redact_phone_like_host_labels : Text → Text
  redact_phone_like_host_labels hostname = redact_labels [] hostname

  abbrev pub with_port : Text → Option ℕ → Text
  with_port host none = host
  with_port host (some port) = host ++ (codes ":" ++ decimal port)

  abbrev pub or_url : Text → Text
  or_url [] = codes "url"
  or_url (c ∷ s) = c ∷ s

  unfoldable pub show_url : SplitUrl → Text → Text
  show_url u hostname =
      or_url u.scheme
      ++ (codes "://"
          ++ (with_port (redact_phone_like_host_labels hostname) u.port
              ++ ((if is_empty u.path || text_eq u.path (codes "/")
                    then []
                    else codes "/[redacted]")
                  ++ (if is_empty u.query then [] else codes "?query=redacted"))))

  -- `urlsplit` gives the parts, or raises.
  unfoldable pub redact_url_for_log : (Text → Option SplitUrl) → Option Text → Text
  redact_url_for_log urlsplit none = codes "unknown-url"
  redact_url_for_log urlsplit (some []) = codes "unknown-url"
  redact_url_for_log urlsplit (some (c ∷ s)) = elim (urlsplit (c ∷ s)) [
    | none ↦ codes "redacted-url"
    | some u ↦ elim u.hostname [
      | none ↦ codes "redacted-url"
      | some hostname ↦ if is_empty hostname then codes "redacted-url" else show_url u hostname
    ]
  ]
