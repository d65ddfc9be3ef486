-- ===== src/Nemesis/Windows.antt =====
-- nemesis/nemesis.go: the windows that the events of a nemesis span.
use torx.Base.{
  ℕ, zero, suc, ◌≡◌, refl, sym, ap, ◌∙◌, String, List, [], ◌∷◌, ◌++◌, Option, none, some, Bool,
  true, false, not, append-nil, append_assoc, if◌then◌else◌, ◌&&◌, arith, Bool-cases, inl, inr,
}
use torx.Nemesis.{
  Event, Failure, no_target, other, Window, Scan, open_window, close_at, heal_step, over_step,
  scan_event, scan_events, windows,
}

-- What identifies a window: the fault, the target and the start of its injection.
abbrev pub Key : Type 0
Key = String × String × ℕ

abbrev pub window_keys : List Window → List Key
window_keys [] = []
window_keys (w ∷ ws) = (w.fault, w.target, w.start) ∷ window_keys ws

abbrev pub found_none : Option Failure → Bool
found_none (some no_target) = true
found_none _ = false

-- The injections that held something, or did not fail with ErrNoTarget, in order.
abbrev pub injected_keys : List Event → List Key
injected_keys [] = []
injected_keys (e ∷ es) =
    if not e.heal && (if e.held then true else not (found_none e.error))
    then (e.fault, e.target, e.start) ∷ injected_keys es
    else injected_keys es

window_keys-append :
    (xs ys : List Window) → window_keys (xs ++ ys) ≡ window_keys xs ++ window_keys ys
window_keys-append [] ys = refl
window_keys-append (x ∷ xs) ys = ap (◌∷◌ (x.fault, x.target, x.start)) (window_keys-append xs ys)

window_keys-close_at :
    (ws : List Window) (i : ℕ) (e : Event) → window_keys (close_at ws i e) ≡ window_keys ws
unfolding close_at
window_keys-close_at [] i e = refl
window_keys-close_at (w ∷ ws) zero e = ground arith
window_keys-close_at (w ∷ ws) (suc i) e =
    ap (◌∷◌ (w.fault, w.target, w.start)) (window_keys-close_at ws i e)

heal-keys :
    (e : Event) (s : Scan) (q : List ℕ) → window_keys (heal_step e s q).out ≡ window_keys s.out
unfolding heal_step
heal-keys e s [] = refl
heal-keys e s (i ∷ q) = window_keys-close_at s.out i e

over-keys :
    (e : Event) (s : Scan) (x : Option Failure)
    → window_keys (over_step e s x).out
      ≡ window_keys s.out ++ (if not (found_none x) then (e.fault, e.target, e.start) ∷ [] else [])
unfolding over_step open_window
over-keys e s none = window_keys-append s.out _
over-keys e s (some no_target) = sym (append-nil _)
over-keys e s (some (other m)) = window_keys-append s.out _

step-keys :
    (s : Scan) (e : Event)
    → window_keys (scan_event s e).out ≡ window_keys s.out ++ injected_keys (e ∷ [])
unfolding scan_event open_window
step-keys s e = elim (Bool-cases e.heal) [
  | inl h ↦
      ground (arith, heal-keys e s (s.opened e.fault e.target), append-nil (window_keys s.out))
  | inr h ↦ elim (Bool-cases e.held) [
    | inl k ↦ ground (arith, window_keys-append s.out (open_window e none ∷ []))
    | inr k ↦ ground (arith, over-keys e s e.error)
  ]
]

injected-append :
    (e : Event) (es : List Event)
    → injected_keys (e ∷ []) ++ injected_keys es ≡ injected_keys (e ∷ es)
injected-append e es = ground arith

scan-keys :
    (s : Scan) (es : List Event)
    → window_keys (scan_events s es).out ≡ window_keys s.out ++ injected_keys es
unfolding scan_events
scan-keys s [] = sym (append-nil _)
scan-keys s (e ∷ es) =
    scan-keys (scan_event s e) es
    ∙ ap (λ l. l ++ injected_keys es) (step-keys s e)
    ∙ append_assoc (window_keys s.out) (injected_keys (e ∷ [])) (injected_keys es)
    ∙ ap (◌++◌ (window_keys s.out)) (injected-append e es)

-- Windows reports exactly the injections that held something, whatever their error, and those that
-- held nothing but did not fail with ErrNoTarget, in the order they were injected, each with its
-- fault, target and start; heals add none and reorder none.
pub windows-keys : (es : List Event) → window_keys (windows es) ≡ injected_keys es
unfolding windows
windows-keys es = scan-keys (record { out = []; opened = λ _ _. [] }) es
