-- ===== src/UseCases/Prune/Drained.antt =====
-- The loop over batches ends, and what it leaves (internal/application/housekeeping/prune.go).
use kafka_lab.Base.{
  Bool-cases, Option, arith, if◌then◌else◌, inl, inr, ltb, none, some, suc, zero, ℕ, ◌+◌, ◌<◌, ◌≡◌,
  ◌≤◌, ◌⊎◌,
}
use kafka_lab.Base.Errors.{Error, Result, err, ok}
use kafka_lab.Database.{Action, Database}
use kafka_lab.UseCases.Prune.{Drain, drain}

-- A table of which a run deletes rows: how many are to go, and what stays of it.
pub record Target : Type 1 where
  pub marked : Database → ℕ
  pub Keeps : Database → Database → Type 0
  pub keeps_on : (a b c : Database) → Keeps a b → Keeps b c → Keeps a c

module _ (t : Target) (batch : ℕ) where
  -- One batch, which deletes fewer rows than its limit only when none is left to go.
  abbrev pub Round : Database → Result ℕ × Database → Type 0
  Round db (ok deleted, db') =
      t.Keeps db db'
      × (t.marked db' + deleted ≡ t.marked db)
      × ((batch ≤ deleted) ⊎ (t.marked db' ≡ 0))
  Round db (err e, db') = t.Keeps db db' × (t.marked db' ≤ t.marked db)

  -- A run that ended without an error has left nothing to go and has counted what it deleted; one
  -- that ended with an error has kept what is to stay.
  abbrev pub EndsBy : ℕ → Database → ℕ → Option Error → Database → Type 0
  EndsBy before db total none db' =
      t.Keeps db db' × (t.marked db' ≡ 0) × (total ≡ before + t.marked db)
  EndsBy before db total (some e) db' = t.Keeps db db' × (t.marked db' ≤ t.marked db)

  abbrev pub Ends : ℕ → Database → Option (Drain × Database) → Type 0
  Ends before db none = ⊥
  Ends before db (some (end, db')) = EndsBy before db end.total end.error db'

  EndsBy-on :
      (before deleted : ℕ) (db db' : Database) (total : ℕ) (error : Option Error) (last : Database)
      → t.Keeps db db'
      → t.marked db' + deleted ≡ t.marked db
      → EndsBy (before + deleted) db' total error last
      → EndsBy before db total error last
  EndsBy-on before deleted db db' total none last k e h =
      (t.keeps_on db db' last k h.0, h.1, omega (arith, h.2))
  EndsBy-on before deleted db db' total (some x) last k e h =
      (t.keeps_on db db' last k h.0, omega (arith, h.1))

  -- An end of the later rounds is an end of all of them.
  Ends-on :
      (before deleted : ℕ) (db db' : Database) (end : Option (Drain × Database))
      → t.Keeps db db'
      → t.marked db' + deleted ≡ t.marked db
      → Ends (before + deleted) db' end
      → Ends before db end
  Ends-on before deleted db db' none k e h = h
  Ends-on before deleted db db' (some (end, last)) k e h =
      EndsBy-on before deleted db db' end.total end.error last k e h

  round-Ends :
      (fuel round before : ℕ) (delete : ℕ → Action ℕ) (db : Database) (r : Result ℕ × Database)
      → 0 < batch
      → t.marked db < suc fuel
      → Round db r
      → ((total : ℕ) (db' : Database)
          → t.marked db' < fuel
          → Ends total db' (drain fuel batch delete (round + 1) total db'))
      → Ends before db (elim r.0 [
        | err e ↦ some (record { total = before; error = some e }, r.1)
        | ok deleted ↦
            let rest = drain fuel batch delete (round + 1) (before + deleted) r.1 in
            if ltb deleted batch
            then some (record { total = before + deleted; error = none }, r.1)
            else rest
      ])
  round-Ends fuel round before delete db (err e, db') pos enough (k, less) ih = (k, less)
  round-Ends fuel round before delete db (ok deleted, db') pos enough (k, e, full) ih =
      elim (Bool-cases (ltb deleted batch)) [
        | inl short ↦ let left : t.marked db' ≡ 0 = ground arith in rw short (k, left, omega arith)
        | inr long ↦
            rw long (Ends-on before deleted db db' _ k e (ih (before + deleted) db' (ground arith)))
      ]

  pub drain-Ends :
      (fuel round before : ℕ) (delete : ℕ → Action ℕ) (db : Database)
      → 0 < batch
      → t.marked db < fuel
      → ((i : ℕ) (d : Database) → Round d (delete i d))
      → Ends before db (drain fuel batch delete round before db)
  unfolding drain
  drain-Ends zero round before delete db pos enough rounds = absurd (omega arith)
  drain-Ends (suc fuel) round before delete db pos enough rounds =
      round-Ends fuel round before delete db (delete round db) pos enough (rounds round db)
        (λ total db' less. drain-Ends fuel (round + 1) total delete db' pos less rounds)
