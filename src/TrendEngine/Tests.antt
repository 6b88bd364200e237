-- ===== src/TrendEngine/Tests.antt =====
-- Runs of the trend engine, with log-odds as numbers modulo 2, of which a half-life leaves nothing, and
-- with numbers of thousandths.
use horadus.TrendEngine.Arith.{Reals, IsOrdered}
use horadus.TrendEngine.{
  Trend, TrendStateVersion, Tables, full_invalidation, ignored, apply_evidence, decay_log_odds,
}
use horadus.TrendEngine.Delta.{escalatory, calculate_evidence_delta}
use horadus.TrendEngine.Bounds.{IsBounded, evidence_delta_bounds}
use horadus.TrendEngine.Once.{apply_evidence_once}
use horadus.TrendEngine.Restatement.{apply_compensating_restatement}
use horadus.TrendEngine.Restatement.History.{History}
use horadus.Prelude.{
  Bool, Option, [], arith, false, get_or, ltb, none, not, refl, some, true, ℕ, ◌&&◌, ◌*◌, ◌+◌, ◌-◌,
  ◌/◌, ◌==◌, ◌≡◌,
}

abbrev pub xor : Bool → Bool → Bool
xor true b = not b
xor false b = b

-- `true` is 1; a number of thousandths is 1 if it is not 0.
abbrev pub modulo_2 : Reals Bool
modulo_2 = record {
  lt = λ a b. not a && b;
  add = xor;
  sub = xor;
  mul = ◌&&◌;
  div = λ a b. a;
  neg = λ a. a;
  sqrt = λ a. a;
  log = λ a. a;
  exp = some;
  half_power = not;
  ratio = λ a b. not (a == 0);
  thousandths = λ a. not (a == 0);
}

-- Numbers of thousandths that stop at 0.
abbrev thousandths : Reals ℕ
thousandths = record {
  lt = ltb;
  add = ◌+◌;
  sub = ◌-◌;
  mul = λ a b. (a * b) / 1000;
  div = λ a b. (a * 1000) / b;
  neg = λ a. 0;
  sqrt = λ a. a;
  log = λ a. a;
  exp = λ a. some 1000;
  half_power = λ a. 1000;
  ratio = λ a b. (a * 1000) / b;
  thousandths = λ a. a;
}

thousandths-IsOrdered : IsOrdered thousandths
thousandths-IsOrdered = record {
  lt_irrefl = λ a. ground arith;
  lt_asym = λ a b e. ground arith;
  lt_trans = λ a b c e f. ground arith;
}

abbrev trend_of : Bool → ℕ → Trend Bool
trend_of log_odds at = record {
  current_log_odds = log_odds;
  baseline_log_odds = false;
  updated_at = at;
  created_at = 0;
  decay_half_life_days = 0;
  active_state_version_id = some 7;
}

abbrev version_of : Bool → TrendStateVersion Bool
version_of log_odds = record {
  baseline_log_odds = false;
  starting_log_odds = true;
  current_log_odds = log_odds;
  decay_half_life_days = 0;
  activated_at = 10;
}

abbrev tables_at : Bool → ℕ → Tables Bool
tables_at log_odds at = record {
  row = some (trend_of log_odds at);
  version = version_of log_odds;
  evidence = [];
  restatements = [];
}

abbrev restated_tables : Option (Trend Bool × Tables Bool)
restated_tables =
    apply_compensating_restatement modulo_2 1 true full_invalidation 20 none (trend_of true 10)
      (tables_at true 10)

abbrev after_of : Option (Trend Bool × Tables Bool) → Trend Bool × Tables Bool
after_of o = get_or o (trend_of true 10, tables_at true 10)

drift_differs : decay_log_odds modulo_2 true false 30 10 20 ≡ false
unfolding decay_log_odds
drift_differs = refl

apply_evidence_once_example :
    (let after =
        apply_evidence modulo_2 1 2 3 true 20 20 false (trend_of true 10) (tables_at true 10) in
      apply_evidence modulo_2 4 2 3 true 30 30 false after.1 after.2
      ≡ (ignored modulo_2 after.1, after.1, after.2))
apply_evidence_once_example =
    apply_evidence_once modulo_2 1 4 2 3 true true 20 20 30 30 false (trend_of true 10)
      (tables_at true 10)

evidence_delta_bounds_example :
    IsBounded thousandths escalatory
      (calculate_evidence_delta thousandths 4000 900 3000 1000 escalatory 1200 1000 0 none)
evidence_delta_bounds_example =
    evidence_delta_bounds thousandths thousandths-IsOrdered 4000 900 3000 1000 escalatory 1200 1000
      0 none refl refl
