-- ===== src/Store/Jobs/Missing.antt =====
-- The jobs that a scan no longer lists, the second loop of `sync_jobs` of orchestrator/rorch/store.py.
use selfhosted_runner_swarm.Prelude.{
  ℕ, ◌+◌, ◌≡◌, inl, inr, Bool, true, false, not, ◌&&◌, Option, none, some, List, [], ◌∷◌, ◌==◌,
  ==_iff, Bool-cases, arith, Option-cases,
}
use selfhosted_runner_swarm.Prelude.Dict.{Dict, get, get-put, member, number_key}
use selfhosted_runner_swarm.Store.{JobRow}
use selfhosted_runner_swarm.Store.Jobs.{
  Synced, is_open, closed_row, report_row, close_job, close_if_missing, close_missing,
}
use selfhosted_runner_swarm.Store.Jobs.Rows.{
  DistinctKeys, reports, reports-append, is_some, one_if, absent_key,
}

-- The row after the second loop.
abbrev pub closed : ℕ → Bool → Option JobRow → Option JobRow
closed now true (some row) = some (closed_row now row)
closed now true none = none
closed now false row = row

get-close_job :
    (id k now : ℕ) (s : Synced)
    → get id (close_job now k s).table ≡ closed now (k == id) (get id s.table)
unfolding close_job
get-close_job id k now s = elim (Option-cases (get k s.table)) [
  | inl e ↦ ground (arith, e, ==_iff k id)
  | inr (row, e) ↦ ground (arith, e, ==_iff k id, get-put k id (closed_row now row) s.table)
]

reports-close_job :
    (id k now : ℕ) (s : Synced)
    → reports id (close_job now k s).finished
      ≡ reports id s.finished + one_if (k == id && is_some (get id s.table))
unfolding close_job
reports-close_job id k now s = elim (Option-cases (get k s.table)) [
  | inl e ↦ ground (arith, e, ==_iff k id)
  | inr (row, e) ↦
      ground (
        arith,
        e,
        ==_iff k id,
        reports-append id s.finished (report_row k (closed_row now row) ∷ []),
      )
]

-- Whether the second loop closes a job.
abbrev pub to_close : Bool → Option (Option ℕ) → Bool
to_close seen ended = not seen && is_open ended

module _ (now : ℕ) (seen : List ℕ) where
  get-close_if_missing :
      (id k : ℕ) (ended : Option ℕ) (s : Synced)
      → get id (close_if_missing now seen k ended s).table
        ≡ closed now (k == id && to_close (member k seen) (some ended)) (get id s.table)
  unfolding close_if_missing
  get-close_if_missing id k ended s = ground (arith, get-close_job id k now s)

  reports-close_if_missing :
      (id k : ℕ) (ended : Option ℕ) (s : Synced)
      → reports id (close_if_missing now seen k ended s).finished
        ≡ reports id s.finished
          + one_if ((k == id && to_close (member k seen) (some ended)) && is_some (get id s.table))
  unfolding close_if_missing
  reports-close_if_missing id k ended s = ground (arith, reports-close_job id k now s)

  pub close_missing_lem :
      (id : ℕ) (ks : Dict ℕ (Option ℕ)) (s : Synced)
      → DistinctKeys ks
      → (get id (close_missing now seen ks s).table
          ≡ closed now (to_close (member id seen) (get id ks)) (get id s.table))
        × (reports id (close_missing now seen ks s).finished
            ≡ reports id s.finished
              + one_if (to_close (member id seen) (get id ks) && is_some (get id s.table)))
  unfolding close_missing get
  close_missing_lem id [] s d = (ground arith, ground arith)
  close_missing_lem id ((k, ended) ∷ ks) s d =
      let s' = close_if_missing now seen k ended s in
      let ih = close_missing_lem id ks s' d.1 in
      elim (Bool-cases (k == id)) [
        | inl e ↦
            let same : k ≡ id = (==_iff k id).0 e in
            let absent : get id ks ≡ none = absent_key id ks (rw (← same) d.0) in
            (
              ground (arith, ih, absent, same, get-close_if_missing id k ended s),
              ground (arith, ih, absent, same, reports-close_if_missing id k ended s),
            )
        | inr e ↦ (
          ground (arith, ih, get-close_if_missing id k ended s),
          ground
              (arith, ih, get-close_if_missing id k ended s, reports-close_if_missing id k ended s),
        )
      ]
