-- ===== src/Alerts/Tests.antt =====
-- internal/alerts at concrete inputs, with natural numbers in place of floats.
use simpledeploy.Prelude.{
  ℕ, ◌+◌, ◌*◌, ◌/◌, ◌≡◌, refl, true, false, none, some, List, [], ◌∷◌, nat_eq, ltb, leb, arith,
}
use simpledeploy.Prelude.Text.{text_eq, text_beq, codes}
use simpledeploy.Alerts.Table.{open_row, get_active_alert, resolve_rows, resolve_alert}
use simpledeploy.Alerts.Active.{has_open, IsValid}
use simpledeploy.Alerts.{
  Floats, MetricPoint, AlertRule, Answers, AlertState, in_window, satisfies, evaluate_rule,
  evaluate_once,
}
use simpledeploy.Alerts.Evaluate.{evaluate_once-IsValid}

abbrev whole : Floats
whole = record {
  F = ℕ;
  of_nat = λ n. n;
  add = λ a b. a + b;
  times = λ a b. a * b;
  div = λ a b. a / b;
  gt = λ a b. ltb b a;
  lt = ltb;
  ge = λ a b. leb b a;
  le = leb;
}

abbrev busy_cpu : AlertRule whole
busy_cpu = record {
  id = 1;
  app_id = none;
  metric = codes "cpu_pct";
  operator = codes ">";
  threshold = 80;
  duration_sec = 60;
  webhook_id = 9;
}

abbrev point : ℕ → ℕ → MetricPoint whole
point ts cpu = record { ts = ts; cpu_pct = cpu; mem_bytes = 0; mem_limit = 0 }

-- One point is too old, and the last one is calm.
abbrev calm : List (MetricPoint whole)
calm = point 10 20 ∷ point 950 90 ∷ point 990 40 ∷ []

abbrev works : Answers whole
works = record {
  points = some calm;
  app = none;
  active_fails = false;
  webhook_fails = false;
  send_fails = true;
  create_fails = false;
  resolve_fails = false;
}

-- The rule has fired before, and so has another.
abbrev fired : AlertState whole
fired = record {
  table = record {
    rows =
        record { id = 2; rule_id = 1; resolved = false }
        ∷ record { id = 1; rule_id = 3; resolved = false }
        ∷ [];
    next_id = 3;
  };
  sent = [];
}

fired-IsValid : IsValid fired.table
fired-IsValid = ((refl, λ e. refl, (refl, λ e. refl, tt)), (omega arith, (omega arith, tt)))

evaluate_once-IsValid_example :
    IsValid (evaluate_once whole 1000 (some ((busy_cpu, works) ∷ [])) fired).0.table
evaluate_once-IsValid_example =
    evaluate_once-IsValid whole 1000 (some ((busy_cpu, works) ∷ [])) fired fired-IsValid

-- The calm point resolves the alert.
fired_resolves : has_open 1 (evaluate_rule whole 1000 busy_cpu works fired).table.rows ≡ false
unfolding evaluate_rule in_window satisfies get_active_alert open_row resolve_alert resolve_rows
    text_beq
fired_resolves = refl
