-- ===== src/ListAppend/Reads.antt =====
-- listappend/listappend.go: the pass reads, over each read of a committed transaction.
pub mod Keeps
use torx.Base.{
  ℕ, suc, String, List, [], ◌∷◌, ◌++◌, Option, none, some, Bool, false, not, ◌&&◌, any, length,
  get_elem?, take, last, min, if◌then◌else◌, ◌==◌, ltb, str_eq,
}
use torx.Base.Int.{ltb_ℤ}
use torx.Base.Sort.{sort_stable}
use torx.ListAppend.{
  Mop, Txn, Checker, g1a, g1b, incompatible_order, lost, report, find, put, or_empty, same_name,
  same_slot, same_list, string_lt, writer_of, appended_by, id_of, status_of, is_committed,
  is_aborted,
}
use torx.ListAppend.History.{anomaly}

-- The maps that reads keeps over a transaction, as lists of the keys that are true.
pub record Noted : Type 0 where
  pub checked : List (String × String)
  pub disordered : List (String × ℕ)
  pub intermediate : List (String × ℕ)
  pub missed : List (String × String)

-- The first loop over the elements of a read: each once, for who appended it.
unfoldable pub check_elements : Txn → String → List String → Checker → Noted → Checker × Noted
check_elements t key [] c s = (c, s)
check_elements t key (v ∷ vs) c s =
    let fresh = not (any (same_name (key, v)) s.checked) in
    let told : Checker = elim (writer_of c key v) [
      | none ↦ report c (anomaly g1a key (t.id ∷ []))
      | some w ↦
          if is_aborted (status_of c w)
          then report c (anomaly g1a key (id_of c w ∷ t.id ∷ []))
          else c
    ] in
    check_elements t key vs (if fresh then told else c)
      (if fresh then record s { checked = (key, v) ∷ s.checked } else s)

-- What a read shows of the appends of others that appended to the key more than once.
unfoldable pub theirs :
    Checker → ℕ → String → List String → List (ℕ × List String) → List (ℕ × List String)
theirs c i key [] got = got
theirs c i key (v ∷ vs) got = theirs c i key vs (elim (writer_of c key v) [
  | none ↦ got
  | some w ↦
      if not (w == i) && ltb 1 (length (appended_by c key w))
      then put ◌==◌ w (or_empty (find ◌==◌ w got) ++ v ∷ []) got
      else got
])

-- Each list of them must start as what its writer appended, or be a start of it.
unfoldable pub check_orders :
    Txn → String → List (ℕ × List String) → Checker → Noted → Checker × Noted
check_orders t key [] c s = (c, s)
check_orders t key ((w, got) ∷ rest) c s =
    let made = appended_by c key w in
    let n = min (length got) (length made) in
    let wrong =
      not (same_list (take n got) (take n made)) && not (any (same_slot (key, w)) s.disordered) in
    check_orders t key rest
      (if wrong then report c (anomaly incompatible_order key (id_of c w ∷ t.id ∷ [])) else c)
      (if wrong then record s { disordered = (key, w) ∷ s.disordered } else s)

abbrev is_own : Checker → ℕ → String → String → Bool
is_own c i key v = elim (writer_of c key v) [ none ↦ false | some w ↦ w == i ]

-- The last element of a read without the transaction's own appends at its end: the last that is
-- not its own.
unfoldable pub last_of_others : Checker → ℕ → String → List String → Option String
last_of_others c i key [] = none
last_of_others c i key (x ∷ xs) = elim (last_of_others c i key xs) [
  | none ↦ if is_own c i key x then none else some x
  | some y ↦ some y
]

-- Whether the last of a list is another than this.
abbrev ends_otherwise : List String → String → Bool
ends_otherwise made v = elim (last made) [ none ↦ false | some l ↦ not (str_eq l v) ]

unfoldable pub check_intermediate :
    Txn → ℕ → String → List String → Checker → Noted → Checker × Noted
check_intermediate t i key read c s = elim (last_of_others c i key read) [
  | none ↦ (c, s)
  | some v ↦ elim (writer_of c key v) [
    | none ↦ (c, s)
    | some w ↦
        if not (any (same_slot (key, w)) s.intermediate) && ends_otherwise (appended_by c key w) v
        then (
          report c (anomaly g1b key (id_of c w ∷ t.id ∷ [])),
          record s { intermediate = (key, w) ∷ s.intermediate },
        )
        else (c, s)
  ]
]

-- The values that were appended to a key, with their writers.
unfoldable pub writers_of : String → List ((String × String) × ℕ) → List (String × ℕ)
writers_of key [] = []
writers_of key (((k, v), w) ∷ rest) =
    if str_eq k key then (v, w) ∷ writers_of key rest else writers_of key rest

-- Committed appends of others, from before the transaction began, that a read lacks.
unfoldable pub check_lost : Txn → ℕ → Mop → List (String × ℕ) → Checker → Noted → Checker × Noted
check_lost t i m [] c s = (c, s)
check_lost t i m ((v, w) ∷ rest) c s =
    let before : Bool = elim (get_elem? c.txns w) [
      | none ↦ false
      | some wt ↦ is_committed wt.status && ltb_ℤ wt.returned t.call
    ] in
    let gone =
      before
      && not (any (str_eq v) m.read)
      && not (w == i)
      && not (any (same_name (m.key, v)) s.missed) in
    check_lost t i m rest
      (if gone then report c (anomaly lost m.key (id_of c w ∷ t.id ∷ [])) else c)
      (if gone then record s { missed = (m.key, v) ∷ s.missed } else s)

unfoldable pub check_read : Txn → ℕ → Mop → Checker → Noted → Checker × Noted
check_read t i m c s =
    let (c1, s1) = check_elements t m.key m.read c s in
    let got = sort_stable (λ a b. ltb a.0 b.0) (theirs c1 i m.key m.read []) in
    let (c2, s2) = check_orders t m.key got c1 s1 in
    let (c3, s3) = check_intermediate t i m.key m.read c2 s2 in
    if c.opts.realtime
    then check_lost t i m (sort_stable (λ a b. string_lt a.0 b.0) (writers_of m.key c3.writer)) c3
        s3
    else (c3, s3)

unfoldable pub check_mops : Txn → ℕ → List Mop → Checker → Noted → Checker
check_mops t i [] c s = c
check_mops t i (m ∷ ms) c s =
    let (c', s') = if m.append then (c, s) else check_read t i m c s in check_mops t i ms c' s'

unfoldable pub reads_from : ℕ → List Txn → Checker → Checker
reads_from i [] c = c
reads_from i (t ∷ ts) c = reads_from (suc i) ts (
    if is_committed t.status
    then check_mops t i t.mops c
        (record { checked = []; disordered = []; intermediate = []; missed = [] })
    else c)

unfoldable pub reads : Checker → Checker
reads c = reads_from 0 c.txns c
