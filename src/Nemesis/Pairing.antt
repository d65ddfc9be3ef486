-- ===== src/Nemesis/Pairing.antt =====
-- nemesis/nemesis.go: which windows the events of one fault after another span.
use mathlib.Core.Option.{some-ne-none}
use torx.Base.{◌≡◌, ◌≢◌, refl, List, [], ◌∷◌, none, some, true, false, All}
use torx.Nemesis.{Event, no_target, Window}
use torx.Nemesis.Windows.{found_none}

-- A window that has ended, and whose heal did not fail.
abbrev pub IsClosed : Window → Type 0
IsClosed w = (w.finish ≢ none) × (w.heal_error ≡ none)

-- Events and the windows they span, in order: an injection that found no target, which spans
-- none; one that held nothing, whose window ends with it; and one that held, with its successful
-- heal directly behind it, whose window ends with the heal.
pub data Paired : List Event → List Window → Type 0 where
  over : Paired [] []
  missed :
      {e : Event} {es : List Event} {ws : List Window}
      → e.heal ≡ false
      → e.held ≡ false
      → e.error ≡ some no_target
      → Paired es ws
      → Paired (e ∷ es) ws
  struck :
      {e : Event} {es : List Event} {ws : List Window}
      → e.heal ≡ false
      → e.held ≡ false
      → found_none e.error ≡ false
      → Paired es ws
      → Paired (e ∷ es) (
          record {
            fault = e.fault;
            target = e.target;
            start = e.start;
            finish = some e.finish;
            heal_error = none;
          }
          ∷ ws)
  spanned :
      {e h : Event} {es : List Event} {ws : List Window}
      → e.heal ≡ false
      → e.held ≡ true
      → h.heal ≡ true
      → h.fault ≡ e.fault
      → h.target ≡ e.target
      → h.error ≡ none
      → Paired es ws
      → Paired (e ∷ h ∷ es) (
          record {
            fault = e.fault;
            target = e.target;
            start = e.start;
            finish = some h.finish;
            heal_error = none;
          }
          ∷ ws)

pub Paired-IsClosed : {es : List Event} {ws : List Window} → Paired es ws → All IsClosed ws
Paired-IsClosed over = tt
Paired-IsClosed (missed a b c p) = Paired-IsClosed p
Paired-IsClosed (struck a b c p) = (((λ q. some-ne-none _ q), refl), Paired-IsClosed p)
Paired-IsClosed (spanned a b c d e f p) = (((λ q. some-ne-none _ q), refl), Paired-IsClosed p)
