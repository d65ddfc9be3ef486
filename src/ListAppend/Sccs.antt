-- ===== src/ListAppend/Sccs.antt =====
-- listappend/listappend.go: sccs, Tarjan's algorithm with an explicit stack of calls.
pub mod Layers
pub mod Calls
pub mod Visits
pub mod Rounds
pub mod Taken
pub mod Closing
pub mod Work
pub mod Correct
pub mod Unparted
use torx.Base.{
  ℕ, zero, suc, ◌+◌, List, [], ◌∷◌, ◌++◌, Option, none, some, Bool, true, false, not, length,
  get_elem?, set, replicate, min, if◌then◌else◌, ◌==◌, ltb,
}
use torx.Base.Sort.{sort_stable}
use torx.ListAppend.Search.{Kind}
use torx.ListAppend.{Edge, Checker, edges_of}

-- The local variables of sccs. `st` and `call` have their top first; `index` has none for -1.
pub record Tarjan : Type 0 where
  pub index : List (Option ℕ)
  pub low : List ℕ
  pub on : List Bool
  pub out : List (List ℕ)
  pub st : List ℕ
  pub next : ℕ
  pub call : List (ℕ × ℕ)

abbrev pub index_of : Tarjan → ℕ → Option ℕ
index_of s v = elim (get_elem? s.index v) [ none ↦ none | some i ↦ i ]

abbrev pub low_of : Tarjan → ℕ → ℕ
low_of s v = elim (get_elem? s.low v) [ none ↦ 0 | some l ↦ l ]

abbrev pub is_on : Tarjan → ℕ → Bool
is_on s v = elim (get_elem? s.on v) [ none ↦ false | some b ↦ b ]

abbrev pub lower : ℕ → ℕ → Tarjan → Tarjan
lower v l s = record s { low = set s.low v (min (low_of s v) l) }

-- A vertex that is first met is numbered and called.
unfoldable pub visit : ℕ → Tarjan → Tarjan
visit w s = record s {
  index = set s.index w (some s.next);
  low = set s.low w s.next;
  next = suc s.next;
  st = w ∷ s.st;
  on = set s.on w true;
  call = (w, 0) ∷ s.call;
}

-- The stack down to a vertex is taken off: what was taken, what is left, and `on`.
pub pop : ℕ → List ℕ → List Bool → List ℕ × List ℕ × List Bool
pop v [] on = ([], [], on)
pop v (w ∷ st) on =
    let (comp, rest, on') = pop v st (set on w false) in
    if w == v then (w ∷ [], st, set on w false) else (w ∷ comp, rest, on')

abbrev pub is_index : Option ℕ → ℕ → Bool
is_index none l = false
is_index (some i) l = l == i

module _ (adj : ℕ → List Edge) (ok : Kind → Bool) where
  -- An edge of the call on top.
  unfoldable pub follow : ℕ → Edge → Tarjan → Tarjan
  unfolding visit
  follow v (w, kind) s =
      if not (ok kind)
      then s
      else elim (index_of s w) [ none ↦ visit w s | some i ↦ if is_on s w then lower v i s else s ]

  -- The component of a vertex whose call has ended, if it is the first of it that was met.
  unfoldable pub close : ℕ → Tarjan → Tarjan
  unfolding pop sort_stable
  close v s =
      let (comp, rest, on') = pop v s.st s.on in
      if is_index (index_of s v) (low_of s v)
      then record s {
        st = rest;
        on = on';
        out = if ltb 1 (length comp) then s.out ++ sort_stable ltb comp ∷ [] else s.out;
      }
      else s

  abbrev pub return_to : ℕ → List (ℕ × ℕ) → Tarjan → Tarjan
  return_to v [] s = s
  return_to v ((p, e) ∷ frames) s = lower p (low_of s v) s

  -- A round of the loop over the calls.
  unfoldable pub round : ℕ × ℕ → List (ℕ × ℕ) → Tarjan → Tarjan
  unfolding follow close
  round (v, e) frames s = elim (get_elem? (adj v) e) [
    | some edge ↦ follow v edge (record s { call = (v, suc e) ∷ frames })
    | none ↦ close v (return_to v frames (record s { call = frames }))
  ]

  -- The loop over the calls, on fuel.
  pub calls : ℕ → Tarjan → Tarjan
  unfolding round
  calls zero s = s
  calls (suc fuel) s = elim s.call [ [] ↦ s | frame ∷ frames ↦ calls fuel (round frame frames s) ]

  -- The loop over the roots, from one on.
  pub roots : ℕ → ℕ → ℕ → Tarjan → Tarjan
  unfolding calls visit
  roots fuel root zero s = s
  roots fuel root (suc n) s =
      roots fuel (suc root) n
        (elim (index_of s root) [ none ↦ calls fuel (visit root s) | some i ↦ s ])

  abbrev pub fresh : ℕ → Tarjan
  fresh n = record {
    index = replicate n none;
    low = replicate n 0;
    on = replicate n false;
    out = [];
    st = [];
    next = 0;
    call = [];
  }

  -- Over `n` vertices.
  unfoldable pub sccs_of : ℕ → ℕ → List (List ℕ)
  unfolding roots
  sccs_of fuel n = (roots fuel 0 n (fresh n)).out

-- A round for each edge and each call.
abbrev pub rounds : List (List Edge) → ℕ
rounds [] = 0
rounds (es ∷ adj) = suc (length es) + rounds adj

unfoldable pub sccs : Checker → (Kind → Bool) → List (List ℕ)
unfolding sccs_of
sccs c ok = sccs_of (edges_of c) ok (rounds c.adj) (length c.txns)
