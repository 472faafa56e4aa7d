-- ===== src/Alerts.antt =====
-- The evaluator of internal/alerts/evaluator.go over the table of internal/store/alerts.go. The
-- numbers of package float64 and what the calls answer are parameters.
pub mod Table
pub mod Active
pub mod Evaluate
mod Tests
use simpledeploy.Prelude.{
  ℕ, ◌+◌, Bool, true, false, not, ◌&&◌, ◌||◌, Option, none, some, List, [], ◌∷◌, ◌++◌, leb,
  if◌then◌else◌, ◌==◌, nat_eq, length, all,
}
use simpledeploy.Prelude.Text.{Text, text_eq, codes}
use simpledeploy.Alerts.Table.{
  AlertHistory, AlertTable, get_active_alert, create_alert_history, resolve_alert,
}

pub record Floats : Type 1 where
  pub F : Type 0
  pub of_nat : ℕ → F
  pub add : F → F → F
  pub times : F → F → F
  pub div : F → F → F
  pub gt : F → F → Bool
  pub lt : F → F → Bool
  pub ge : F → F → Bool
  pub le : F → F → Bool

module _ (fl : Floats) where
  -- `ts` is in seconds.
  pub record MetricPoint : Type 0 where
    pub ts : ℕ
    pub cpu_pct : fl.F
    pub mem_bytes : ℕ
    pub mem_limit : ℕ

  pub record AlertRule : Type 0 where
    pub id : ℕ
    pub app_id : Option ℕ
    pub metric : Text
    pub operator : Text
    pub threshold : fl.F
    pub duration_sec : ℕ
    pub webhook_id : ℕ

  pub record App : Type 0 where
    pub name : Text
    pub slug : Text

  -- Without the texts that EnrichEvent adds for display. `firing` is the status "firing", else it is
  -- "resolved".
  pub record AlertEvent : Type 0 where
    pub app : Option App
    pub metric : Text
    pub value : fl.F
    pub threshold : fl.F
    pub operator : Text
    pub firing : Bool
    pub fired_at : ℕ

  -- What the calls answer during the evaluation of one rule; `none` for the points and the app is an
  -- error, and the flags are the errors of the other calls.
  pub record Answers : Type 0 where
    pub points : Option (List MetricPoint)
    pub app : Option App
    pub active_fails : Bool
    pub webhook_fails : Bool
    pub send_fails : Bool
    pub create_fails : Bool
    pub resolve_fails : Bool

  -- The table, and the events that webhooks got, the latest last.
  pub record AlertState : Type 0 where
    pub table : AlertTable
    pub sent : List AlertEvent

  unfoldable pub check_condition : fl.F → Text → fl.F → Bool
  check_condition value operator threshold =
      if operator == codes ">"
      then fl.gt value threshold
      else if operator == codes "<"
      then fl.lt value threshold
      else if operator == codes ">="
      then fl.ge value threshold
      else if operator == codes "<="
      then fl.le value threshold
      else false

  unfoldable pub extract_metric_value : MetricPoint → Text → fl.F
  extract_metric_value point metric =
      if metric == codes "cpu_pct"
      then point.cpu_pct
      else if metric == codes "mem_bytes"
      then fl.of_nat point.mem_bytes
      else if metric == codes "mem_pct"
      then (if point.mem_limit == 0
          then fl.of_nat 0
          else fl.times (fl.div (fl.of_nat point.mem_bytes) (fl.of_nat point.mem_limit))
              (fl.of_nat 100))
      else fl.of_nat 0

  -- The points that are not older than the rule's duration; `now` is in seconds.
  unfoldable pub in_window : ℕ → AlertRule → List MetricPoint → List MetricPoint
  in_window now rule [] = []
  in_window now rule (p ∷ ps) =
      let rest = in_window now rule ps in
      if leb now (p.ts + rule.duration_sec) then p ∷ rest else rest

  unfoldable pub satisfies : AlertRule → MetricPoint → Bool
  unfolding check_condition extract_metric_value
  satisfies rule p =
      check_condition (extract_metric_value p rule.metric) rule.operator rule.threshold

  unfoldable pub sum_from : AlertRule → fl.F → List MetricPoint → fl.F
  unfolding extract_metric_value
  sum_from rule sum [] = sum
  sum_from rule sum (p ∷ ps) = sum_from rule (fl.add sum (extract_metric_value p rule.metric)) ps

  unfoldable pub average : AlertRule → List MetricPoint → fl.F
  unfolding sum_from
  average rule ps = fl.div (sum_from rule (fl.of_nat 0) ps) (fl.of_nat (length ps))

  abbrev pub app_of : Option ℕ → Option App → Option App
  app_of none app = none
  app_of (some id) app = app

  abbrev pub build_event : AlertRule → Answers → fl.F → Bool → ℕ → AlertEvent
  build_event rule ans value firing now = record {
    app = app_of rule.app_id ans.app;
    metric = rule.metric;
    value = value;
    threshold = rule.threshold;
    operator = rule.operator;
    firing = firing;
    fired_at = now;
  }

  abbrev pub send_event : Answers → AlertEvent → AlertState → AlertState
  send_event ans event st =
      if ans.send_fails then st else record st { sent = st.sent ++ event ∷ [] }

  abbrev pub create : AlertRule → Answers → AlertState → AlertState
  create rule ans st =
      if ans.create_fails then st else record st { table = create_alert_history rule.id st.table }

  unfoldable pub fire : ℕ → AlertRule → Answers → fl.F → AlertState → AlertState
  fire now rule ans avg st =
      if ans.webhook_fails
      then st
      else create rule ans (send_event ans (build_event rule ans avg true now) st)

  unfoldable pub resolve_active :
      ℕ → AlertRule → Answers → fl.F → AlertHistory → AlertState → AlertState
  resolve_active now rule ans avg active st =
      if ans.resolve_fails
      then st
      else (let st' : AlertState = record st { table = resolve_alert active.id st.table } in
          if ans.webhook_fails
          then st'
          else send_event ans (build_event rule ans avg false now) st')

  abbrev pub act_on :
      ℕ → AlertRule → Answers → fl.F → Bool → Option AlertHistory → AlertState → AlertState
  act_on now rule ans avg true none st = fire now rule ans avg st
  act_on now rule ans avg true (some active) st = st
  act_on now rule ans avg false none st = st
  act_on now rule ans avg false (some active) st = resolve_active now rule ans avg active st

  abbrev pub act_on_points : ℕ → AlertRule → Answers → List MetricPoint → AlertState → AlertState
  act_on_points now rule ans [] st = st
  act_on_points now rule ans (p ∷ ps) st =
      if ans.active_fails
      then st
      else act_on now rule ans (average rule (p ∷ ps)) (all (satisfies rule) (p ∷ ps))
          (get_active_alert rule.id st.table) st

  abbrev pub act_on_answer :
      ℕ → AlertRule → Answers → Option (List MetricPoint) → AlertState → AlertState
  act_on_answer now rule ans none st = st
  act_on_answer now rule ans (some ps) st = act_on_points now rule ans (in_window now rule ps) st

  unfoldable pub evaluate_rule : ℕ → AlertRule → Answers → AlertState → AlertState
  unfolding fire resolve_active in_window
  evaluate_rule now rule ans st = act_on_answer now rule ans ans.points st

  unfoldable pub rules_loop : ℕ → List (AlertRule × Answers) → AlertState → AlertState
  unfolding evaluate_rule
  rules_loop now [] st = st
  rules_loop now ((rule, ans) ∷ rules) st = rules_loop now rules (evaluate_rule now rule ans st)

  -- `none` is that the rules cannot be listed, which is an error.
  unfoldable pub evaluate_once :
      ℕ → Option (List (AlertRule × Answers)) → AlertState → AlertState × Bool
  unfolding rules_loop
  evaluate_once now none st = (st, false)
  evaluate_once now (some rules) st = (rules_loop now rules st, true)

  -- Whether a backup event came from the app of a rule; 0 is no app.
  abbrev pub backup_event_for_app : ℕ → ℕ → Bool
  backup_event_for_app from app_id = not (from == 0) && from == app_id

  abbrev pub is_for_app : ℕ → Option ℕ → Bool
  is_for_app from none = true
  is_for_app from (some app_id) = backup_event_for_app from app_id

  -- The webhooks that a backup event is sent to. Each rule comes with whether its webhook is found.
  unfoldable pub dispatch_backup_alert : ℕ → Text → List (AlertRule × Bool) → List ℕ
  dispatch_backup_alert from event_type [] = []
  dispatch_backup_alert from event_type ((rule, has_webhook) ∷ rules) =
      let rest = dispatch_backup_alert from event_type rules in
      if (rule.metric == event_type || rule.metric == codes "backup_all")
        && is_for_app from rule.app_id
        && has_webhook
      then rule.webhook_id ∷ rest
      else rest
