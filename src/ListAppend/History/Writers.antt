-- ===== src/ListAppend/History/Writers.antt =====
-- listappend/listappend.go: the writers that appends records are transactions.
use torx.Base.{
  ℕ, suc, ◌+◌, ◌≡◌, ◌<◌, List, [], ◌∷◌, ◌++◌, Option, none, some, not, length, if◌then◌else◌,
  if_keeps, All, arith, ◌==◌,
}
use torx.ListAppend.{
  Mop, Txn, Checker, put, same_name, same_slot, writer_of, appended_by, report, duplicate, id_of,
}
use torx.ListAppend.Maps.{put-All}
use torx.ListAppend.History.{anomaly, note_append, note_appends, appends_from, appends}

module _ (n : ℕ) (ts : List Txn) where
  abbrev pub Writes : Checker → Type 0
  Writes c = (c.txns ≡ ts) × All (λ kv. kv.1 < n) c.writer

  written :
      (i : ℕ) (m : Mop) (c : Checker)
      → i < n
      → Writes c
      → Writes (record c { writer = put same_name (m.key, m.value) i c.writer })
  written i m c lt (same, h) =
      (same, put-All same_name (λ w. w < n) (m.key, m.value) i c.writer h lt)

  maybe :
      (o : Option ℕ) (c : Checker) (f : ℕ → Checker)
      → Writes c
      → ((j : ℕ) → Writes (f j))
      → Writes (elim o [ none ↦ c | some j ↦ f j ])
  maybe none c f h k = h
  maybe (some j) c f h k = k j

  note_append-Writes :
      (i : ℕ) (t : Txn) (c : Checker) (m : Mop) → i < n → Writes c → Writes (note_append i t c m)
  unfolding note_append
  note_append-Writes i t c m lt (same, h) =
      let noted : Checker = record c {
        appended = put same_slot (m.key, i) (appended_by c m.key i ++ m.value ∷ []) c.appended;
      } in
      let again : ℕ → Checker = (λ j.
        if j == i
        then noted
        else report noted (anomaly duplicate m.key (id_of noted j ∷ t.id ∷ []))) in
      let told : Checker = elim (writer_of noted m.key m.value) [
        | none ↦ noted
        | some j ↦ again j
      ] in
      let kept : Writes told =
        maybe (writer_of noted m.key m.value) noted again (same, h)
          (λ j.
            if_keeps Writes (j == i) noted
              (report noted (anomaly duplicate m.key (id_of noted j ∷ t.id ∷ []))) (same, h)
              (same, h)) in
      if_keeps Writes (not m.append) c _ (same, h) (written i m told lt kept)

  note_appends-Writes :
      (i : ℕ) (t : Txn) (c : Checker) (ms : List Mop)
      → i < n
      → Writes c
      → Writes (note_appends i t c ms)
  unfolding note_appends
  note_appends-Writes i t c [] lt h = h
  note_appends-Writes i t c (m ∷ ms) lt h =
      note_appends-Writes i t (note_append i t c m) ms lt (note_append-Writes i t c m lt h)

  appends_from-Writes :
      (i : ℕ) (us : List Txn) (c : Checker)
      → i + length us ≡ n
      → Writes c
      → Writes (appends_from i us c)
  unfolding appends_from
  appends_from-Writes i [] c size h = h
  appends_from-Writes i (u ∷ us) c size h =
      appends_from-Writes (suc i) us (note_appends i u c u.mops) (omega (arith, size))
        (note_appends-Writes i u c u.mops (omega (arith, size)) h)

  pub appends-Writes : (c : Checker) → 0 + length c.txns ≡ n → Writes c → Writes (appends c)
  unfolding appends
  appends-Writes c size h = appends_from-Writes 0 c.txns c size h
