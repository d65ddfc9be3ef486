-- ===== src/Nemesis/Closing.antt =====
-- nemesis/nemesis.go: the windows of what Run records when its heals succeed.
use text.Mathlib.TextPositions.{eq_refl}
use torx.Base.{
  ℕ, ◌≡◌, refl, sym, ap, subst, ◌∙◌, String, List, [], ◌∷◌, ◌++◌, Option, none, some, length,
  append-nil, append_assoc, All, arith, Bool-cases, inl, inr, ◌⊎◌, ◌==◌,
}
use torx.Nemesis.Pairing.{IsClosed, Paired, over, missed, struck, spanned, Paired-IsClosed}
use torx.Nemesis.{
  Event, Failure, no_target, other, Window, Scan, Fault, Round, injection, healed, round_events,
  run_rounds, run, open_window, close_at, heal_step, over_step, scan_event, scan_events, windows,
  enqueue, is_some, pick_from, total_weight,
}

-- The heal that Inject returned, if any, succeeds.
abbrev pub HealsWell : Round → Type 0
HealsWell r = (r.healing ≡ none) ⊎ (r.healing ≡ some none)

close_at-append :
    (ws : List Window) (w : Window) (e : Event)
    → e.error ≡ none
    → close_at (ws ++ w ∷ []) (length ws) e ≡ ws ++ record w { finish = some e.finish } ∷ []
unfolding close_at
close_at-append [] w e h = ground arith
close_at-append (x ∷ ws) w e h = ap (◌∷◌ x) (close_at-append ws w e h)

-- Between two faults nothing is open.
abbrev Rest : Scan → Type 0
Rest s = (f t : String) → s.opened f t ≡ []

-- Events that add windows to a scan at rest, which is at rest again behind them.
abbrev Adds : Scan → List Event → Type 0
Adds s es =
    (ws : List Window) × ((scan_events s es).out ≡ s.out ++ ws)
    × Rest (scan_events s es)
    × ((fs : List Event) (vs : List Window) → Paired fs vs → Paired (es ++ fs) (ws ++ vs))

scan-append :
    (s : Scan) (xs ys : List Event) → scan_events s (xs ++ ys) ≡ scan_events (scan_events s xs) ys
unfolding scan_events
scan-append s [] ys = refl
scan-append s (x ∷ xs) ys = scan-append (scan_event s x) xs ys

-- A fault that holds nothing.
over-Adds :
    (f : Fault) (r : Round) (s : Scan) (x : Option Failure)
    → r.inject_error ≡ x
    → r.healing ≡ none
    → Rest s
    → Adds s (injection f r ∷ [])
unfolding scan_events scan_event over_step open_window injection
over-Adds f r s none e none_held rest =
    rw (e, none_held)
      (
        record {
          fault = f.name;
          target = r.target;
          start = r.inject_start;
          finish = some r.inject_end;
          heal_error = none;
        }
            ∷ [],
        refl,
        rest,
        λ fs vs p. struck refl refl refl p,
      )
over-Adds f r s (some no_target) e none_held rest =
    rw (e, none_held) ([], sym (append-nil s.out), rest, λ fs vs p. missed refl refl refl p)
over-Adds f r s (some (other m)) e none_held rest =
    rw (e, none_held)
      (
        record {
          fault = f.name;
          target = r.target;
          start = r.inject_start;
          finish = some r.inject_end;
          heal_error = none;
        }
            ∷ [],
        refl,
        rest,
        λ fs vs p. struck refl refl refl p,
      )

enqueue_self : (f t : String) (q : List ℕ) (o : String → String → List ℕ) → enqueue f t q o f t ≡ q
enqueue_self f t q o = rw (eq_refl f, eq_refl t)

-- A heal that succeeds right after the injection of its fault closes the window of that injection.
module _ (f : Fault) (r : Round) (s : Scan) (rest : Rest s) where
  abbrev held_window : Window
  held_window = open_window (injection f r) none

  abbrev opened_scan : Scan
  opened_scan = record {
    out = s.out ++ held_window ∷ [];
    opened = enqueue f.name r.target (s.opened f.name r.target ++ length s.out ∷ []) s.opened;
  }

  abbrev closed_scan : Scan
  closed_scan = record {
    out = s.out ++ record held_window { finish = some r.heal_end } ∷ [];
    opened = enqueue f.name r.target [] opened_scan.opened;
  }

  queue : opened_scan.opened f.name r.target ≡ length s.out ∷ []
  queue =
      enqueue_self f.name r.target (s.opened f.name r.target ++ length s.out ∷ []) s.opened
      ∙ ap (λ l. l ++ length s.out ∷ []) (rest f.name r.target)

  inject_opens : r.healing ≡ some none → scan_event s (injection f r) ≡ opened_scan
  unfolding scan_event injection
  inject_opens h = ground arith

  heal_closes : scan_event opened_scan (healed f r none) ≡ closed_scan
  unfolding scan_event healed heal_step
  heal_closes =
      ap (heal_step (healed f r none) opened_scan) queue
      ∙ ap (λ (l : List Window). record { out = l; opened = closed_scan.opened })
          (close_at-append s.out held_window (healed f r none) refl)

  closed_Rest : Rest closed_scan
  closed_Rest g t = ground (arith, rest g t)

events_held :
    (f : Fault) (r : Round)
    → r.healing ≡ some none
    → round_events f r ≡ injection f r ∷ healed f r none ∷ []
unfolding round_events
events_held f r h = ground arith

held-Adds :
    (f : Fault) (r : Round) (s : Scan)
    → r.healing ≡ some none
    → Rest s
    → Adds s (injection f r ∷ healed f r none ∷ [])
unfolding scan_events injection healed open_window
held-Adds f r s held rest =
    let events : scan_events s (injection f r ∷ healed f r none ∷ []) ≡ closed_scan f r s rest =
      ap (λ x. scan_event x (healed f r none)) (inject_opens f r s rest held)
      ∙ heal_closes f r s rest in
    (
      record {
        fault = f.name;
        target = r.target;
        start = r.inject_start;
        finish = some r.heal_end;
        heal_error = none;
      }
          ∷ [],
      ap (λ x. x.out) events,
      subst Rest (sym events) (closed_Rest f r s rest),
      λ fs vs p. spanned refl (ap is_some held) refl refl refl refl p,
    )

events_unheld : (f : Fault) (r : Round) → r.healing ≡ none → round_events f r ≡ injection f r ∷ []
unfolding round_events
events_unheld f r h = ground arith

round-Adds : (f : Fault) (r : Round) (s : Scan) → HealsWell r → Rest s → Adds s (round_events f r)
round-Adds f r s (inl none_held) rest =
    subst (Adds s) (sym (events_unheld f r none_held))
      (over-Adds f r s r.inject_error refl none_held rest)
round-Adds f r s (inr held) rest =
    subst (Adds s) (sym (events_held f r held)) (held-Adds f r s held rest)

run-Adds :
    (faults : List Fault) (last : Fault) (rs : List Round) (s : Scan)
    → All HealsWell rs
    → Rest s
    → (ws : List Window) × ((scan_events s (run_rounds faults last rs)).out ≡ s.out ++ ws)
      × Paired (run_rounds faults last rs) ws
unfolding run_rounds scan_events
run-Adds faults last [] s h rest = ([], sym (append-nil s.out), over)
run-Adds faults last (r ∷ rs) s h rest =
    let f = pick_from r.draw faults last in
    let later = run_rounds faults last rs in
    elim (Bool-cases r.ended_resting) [
      | inl ended ↦ rw ended ([], sym (append-nil s.out), over)
      | inr slept ↦ elim (Bool-cases r.ended_before) [
        | inl ended ↦ rw (slept, ended) ([], sym (append-nil s.out), over)
        | inr going ↦
            let (ws, out, rest', extends) = round-Adds f r s h.0 rest in
            let (vs, out', p) =
              run-Adds faults last rs (scan_events s (round_events f r)) h.1 rest' in
            rw (slept, going)
              (
                ws ++ vs,
                ap (λ x. x.out) (scan-append s (round_events f r) later)
                    ∙ out'
                    ∙ ap (λ l. l ++ vs) out
                    ∙ append_assoc s.out ws vs,
                extends later vs p,
              )
      ]
    ]

-- When every heal succeeds, the events that a nemesis records are injections, each that holds
-- directly followed by the successful heal of the same fault and target: a fault that is held is
-- healed before the next one is injected and before the run ends. Windows pairs each of those with
-- that heal, whose end is the window's, gives an injection that held nothing a window of its own
-- unless it failed with ErrNoTarget, and every window is closed.
pub run_closes_windows :
    (faults : List Fault) (last : Fault) (rs : List Round)
    → All HealsWell rs
    → Paired (run faults last rs) (windows (run faults last rs))
      × All IsClosed (windows (run faults last rs))
unfolding windows run
run_closes_windows faults last rs h = elim (Bool-cases (total_weight faults == 0)) [
  | inl idle ↦ rw idle (over, tt)
  | inr weighted ↦
      let (ws, out, p) =
        run-Adds faults last rs (record { out = []; opened = λ _ _. [] }) h (λ f t. refl) in
      rw weighted (rw out (p, Paired-IsClosed p))
]
