-- ===== src/TrendEngine/Restatement/Refinement.antt =====
-- The stored log-odds of a trend are the projection from its ledger.
use mathlib.Core.Option.{some-injective}
use horadus.TrendEngine.Arith.{Reals, IsExact}
use horadus.TrendEngine.{same_version, RestatementKind, Tables, Trend}
use horadus.TrendEngine.Restatement.{
  state_version_of, apply_compensating_restatement, non_zero, EvidenceLink,
}
use horadus.TrendEngine.Restatement.History.{
  decay, restate, decay_to, changed, apply_decay-IsProjected, activated-IsProjected, activated,
  History, IsProjected,
}
use horadus.TrendEngine.Restatement.Steps.{
  foreign-IsProjected, restate_foreign, restated, counted-IsProjected, same_version_eq,
  restate_counted, tables_of,
}
use horadus.Prelude.{Bool-cases, Option, ap, inl, inr, some, sym, true, ℕ, ◌<◌, ◌∙◌, ◌≡◌}

module _ {R : Type 0} (ops : Reals R) (exact : IsExact ops) (v : ℕ) where
  restate-IsProjected :
      (id : ℕ) (c : R) (kind : RestatementKind) (at : ℕ) (link : Option EvidenceLink)
      (trend object : Trend R) (tables after : Tables R)
      → IsProjected ops v trend tables
      → trend.updated_at < at
      → non_zero ops c ≡ true
      → apply_compensating_restatement ops id c kind at link trend tables ≡ some (object, after)
      → (row : Trend R) × IsProjected ops v row after
  restate-IsProjected id c kind at link trend object tables after p q z ran =
      let version = state_version_of link (some v) in
      elim (Bool-cases (same_version version (some v))) [
        | inl e ↦
            let same = some-injective _ _ (
              sym (ap (tables_of ops v) ran)
              ∙ restate_counted ops v id c kind at link trend tables exact p e
                  (same_version_eq version v e) z) in
            (
              changed ops v trend (ops.add (decay_to ops v trend at) c) at,
              rw same (
                  counted-IsProjected ops exact v (restated ops v id c kind at link) trend tables p
                    q e),
            )
        | inr e ↦
            let same = some-injective _ _ (
              sym (ap (tables_of ops v) ran)
              ∙ restate_foreign ops v id c kind at link trend tables p e) in
            (
              trend,
              rw same (
                  foreign-IsProjected ops exact v (restated ops v id c kind at link) trend tables p
                    e),
            )
      ]

  reload :
      (tables : Tables R) (row : Trend R)
      → (loaded : Trend R) × IsProjected ops v loaded tables
      → tables.row ≡ some row
      → IsProjected ops v row tables
  reload tables row (loaded, p) e = rw (some-injective _ _ (sym e ∙ p.row)) p

  pub History-IsProjected :
      {trend : Trend R} {tables : Tables R}
      → History ops v trend tables
      → IsProjected ops v trend tables
  History-IsProjected (activated a) = activated-IsProjected ops v _ _ a
  History-IsProjected (decay {trend} {row} {tables} at h e) =
      reload _ row (apply_decay-IsProjected ops exact v at trend tables (History-IsProjected h)) e
  History-IsProjected
        (restate {trend} {object} {row} {tables} {after} id c kind at link h q z ran e) =
      reload after row
        (restate-IsProjected id c kind at link trend object tables after (History-IsProjected h) q z
          ran)
        e
