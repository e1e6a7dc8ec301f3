-- ===== src/Protocol/Urc/Captures.antt =====
-- What the hooks of callstack/protocol/urc.py collect, and `URCCapture` of
-- callstack/protocol/executor.py, which puts one in for the time of a `with` block.
use callstack.Prelude.{
  ◌≡◌, refl, ap, sym, ◌∙◌, true, false, List, [], ◌∷◌, ◌++◌, map, append_assoc, append-nil, Text,
  text_eq_refl, if◌then◌else◌, All, arith, Bool-cases, inl, inr,
}
use callstack.Protocol.Lines.{starts_with_any}
use callstack.Protocol.Urc.{
  CaptureHook, UrcDispatcher, add_capture_hook, texts_eq, remove_equal, remove_capture_hook,
  capture, dispatch,
}

-- Codes dispatched one after the other.
abbrev pub dispatch_all : UrcDispatcher → List (Text × Text) → UrcDispatcher
dispatch_all d [] = d
dispatch_all d ((line, followup) ∷ codes) = dispatch_all (dispatch d line followup) codes

-- The lines that begin with one of the prefixes.
abbrev pub matching : List Text → List (Text × Text) → List Text
matching prefixes [] = []
matching prefixes ((line, followup) ∷ codes) =
    let rest = matching prefixes codes in
    if starts_with_any prefixes line then line ∷ rest else rest

-- The hook once they have been dispatched.
abbrev pub extended : List (Text × Text) → CaptureHook → CaptureHook
extended codes h = record h { lines = h.lines ++ matching h.prefixes codes }

-- `capture_urcs` around codes: the hook goes in, they are dispatched, and the hook, with the lines that
-- it then has, is taken out.
abbrev pub with_capture : UrcDispatcher → List Text → List (Text × Text) → UrcDispatcher
with_capture d prefixes codes =
    remove_capture_hook (dispatch_all (add_capture_hook d prefixes []) codes) prefixes
      (matching prefixes codes)

with_lines : CaptureHook → List Text → CaptureHook
with_lines h ls = record h { lines = ls }

extended-capture :
    (line followup : Text) (codes : List (Text × Text)) (h : CaptureHook)
    → extended codes (capture line h) ≡ extended ((line, followup) ∷ codes) h
unfolding capture with_lines
extended-capture line followup codes h = elim (Bool-cases (starts_with_any h.prefixes line)) [
  | inl e ↦ rw e (ap (with_lines h) (append_assoc h.lines (line ∷ []) (matching h.prefixes codes)))
  | inr e ↦ rw e refl
]

extended-map :
    (line followup : Text) (codes : List (Text × Text)) (hooks : List CaptureHook)
    → map (extended codes) (map (capture line) hooks)
      ≡ map (extended ((line, followup) ∷ codes)) hooks
extended-map line followup codes [] = refl
extended-map line followup codes (h ∷ hooks) =
    cc (extended-capture line followup codes h, extended-map line followup codes hooks)

extended_none : (hooks : List CaptureHook) → map (extended []) hooks ≡ hooks
unfolding with_lines
extended_none [] = refl
extended_none (h ∷ hooks) =
    let e : extended [] h ≡ h = ap (with_lines h) (append-nil h.lines) in
    cc (e, extended_none hooks)

-- However many codes are dispatched, every hook has what it had and then, in order, the lines
-- that begin with one of its prefixes, and no hook is added or lost.
pub dispatch_all-capture :
    (d : UrcDispatcher) (codes : List (Text × Text))
    → (dispatch_all d codes).capture_hooks ≡ map (extended codes) d.capture_hooks
unfolding dispatch
dispatch_all-capture d [] = sym (extended_none d.capture_hooks)
dispatch_all-capture d ((line, followup) ∷ codes) =
    dispatch_all-capture (dispatch d line followup) codes
    ∙ extended-map line followup codes d.capture_hooks

-- A hook whose prefixes are not these.
abbrev pub Other : List Text → CaptureHook → Type 0
Other prefixes h = texts_eq h.prefixes prefixes ≡ false

texts_eq_refl : (ts : List Text) → texts_eq ts ts ≡ true
unfolding texts_eq
texts_eq_refl [] = refl
texts_eq_refl (t ∷ ts) = ground (arith, text_eq_refl t, texts_eq_refl ts)

remove_equal-last :
    (prefixes lines : List Text) (hooks : List CaptureHook) (h : CaptureHook)
    → All (Other prefixes) hooks
    → texts_eq h.prefixes prefixes ≡ true
    → texts_eq h.lines lines ≡ true
    → remove_equal prefixes lines (hooks ++ h ∷ []) ≡ hooks
unfolding remove_equal
remove_equal-last prefixes lines [] h others p l = ground arith
remove_equal-last prefixes lines (k ∷ hooks) h others p l =
    let rest = remove_equal-last prefixes lines hooks h others.1 p l in
    let other = others.0 in ground arith

map-append :
    (f : CaptureHook → CaptureHook) (xs ys : List CaptureHook)
    → map f (xs ++ ys) ≡ map f xs ++ map f ys
map-append f [] ys = refl
map-append f (x ∷ xs) ys = cc (map-append f xs ys)

Other-extended :
    (prefixes : List Text) (codes : List (Text × Text)) (hooks : List CaptureHook)
    → All (Other prefixes) hooks
    → All (Other prefixes) (map (extended codes) hooks)
Other-extended prefixes codes [] h = tt
Other-extended prefixes codes (k ∷ hooks) h = (h.0, Other-extended prefixes codes hooks h.1)

emitted-hooks :
    (d e : UrcDispatcher) (codes : List (Text × Text))
    → d.emitted ≡ e.emitted
    → (dispatch_all d codes).emitted ≡ (dispatch_all e codes).emitted
unfolding dispatch
emitted-hooks d e [] h = h
emitted-hooks d e ((line, followup) ∷ codes) h =
    emitted-hooks (dispatch d line followup) (dispatch e line followup) codes (ground arith)

dispatcher_eq :
    (d e : UrcDispatcher) → d.capture_hooks ≡ e.capture_hooks → d.emitted ≡ e.emitted → d ≡ e
dispatcher_eq d e h k = ground arith

-- A capture changes nothing for anyone else: where no other hook has its prefixes, the dispatcher
-- is afterwards what it would be without the capture, the events and the other hooks included.
pub with_capture_transparent :
    (d : UrcDispatcher) (prefixes : List Text) (codes : List (Text × Text))
    → All (Other prefixes) d.capture_hooks
    → with_capture d prefixes codes ≡ dispatch_all d codes
unfolding add_capture_hook remove_capture_hook
with_capture_transparent d prefixes codes h =
    let added = add_capture_hook d prefixes [] in
    let own : CaptureHook = record { prefixes = prefixes; lines = matching prefixes codes } in
    let hooks : (dispatch_all added codes).capture_hooks
        ≡ map (extended codes) d.capture_hooks ++ own ∷ [] =
      dispatch_all-capture added codes
      ∙ map-append (extended codes) d.capture_hooks
          (record { prefixes = prefixes; lines = [] } ∷ []) in
    dispatcher_eq (with_capture d prefixes codes) (dispatch_all d codes)
      (ap (remove_equal prefixes (matching prefixes codes)) hooks
        ∙ (remove_equal-last prefixes (matching prefixes codes)
              (map (extended codes) d.capture_hooks) own
              (Other-extended prefixes codes d.capture_hooks h) (texts_eq_refl prefixes)
              (texts_eq_refl (matching prefixes codes))
            ∙ sym (dispatch_all-capture d codes)))
      (emitted-hooks added d codes refl)
