-- ===== src/Alerts/Evaluate.antt =====
-- What an evaluation leaves open.
use simpledeploy.Prelude.{
  ℕ, Bool, true, false, ◌≡◌, ◌⊎◌, ap, refl, inl, inr, Option, none, some, List, [], ◌∷◌,
  if◌then◌else◌, nat_eq, all, Bool-cases,
}
use simpledeploy.Alerts.Table.{AlertHistory, get_active_alert, create_alert_history, resolve_alert}
use simpledeploy.Alerts.Active.{
  IsValid, open_row-none, resolve_alert-IsValid, create_alert_history-IsValid,
}
use simpledeploy.Alerts.{
  Floats, MetricPoint, AlertRule, Answers, AlertEvent, AlertState, in_window, satisfies, average,
  send_event, fire, resolve_active, act_on, act_on_points, act_on_answer, evaluate_rule, rules_loop,
  evaluate_once,
}

module _ (fl : Floats) where
  table-send_event :
      (ans : Answers fl) (event : AlertEvent fl) (st : AlertState fl)
      → (send_event fl ans event st).table ≡ st.table
  table-send_event ans event st = elim (Bool-cases ans.send_fails) [
    | inl failed ↦ rw failed refl
    | inr sent ↦ rw sent refl
  ]

  -- The calls that an action needs succeed. A webhook that cannot be reached does not matter.
  abbrev pub Works : Answers fl → Type 0
  Works ans =
      (ans.active_fails ≡ false)
      × (ans.webhook_fails ≡ false)
      × (ans.create_fails ≡ false)
      × (ans.resolve_fails ≡ false)

  abbrev is_found : Option AlertHistory → Bool
  is_found none = false
  is_found (some h) = true

  -- The table after an action: with a row that was missing, or with the open one resolved, or the
  -- same, if nothing was to be done or a call failed.
  abbrev CanFollow :
      AlertRule fl
      → Answers fl
      → Bool
      → Option AlertHistory
      → AlertState fl
      → AlertState fl
      → Type 0
  CanFollow rule ans ok found st after =
      ((after.table ≡ st.table) × (Works ans → ok ≡ is_found found))
      ⊎ (((ok ≡ true) × (found ≡ none) × (after.table ≡ create_alert_history rule.id st.table))
          ⊎ ((ok ≡ false)
              × ((h : AlertHistory) × (found ≡ some h)
                  × (after.table ≡ resolve_alert h.id st.table))))

  act_on-CanFollow :
      (now : ℕ) (rule : AlertRule fl) (ans : Answers fl) (avg : fl.F) (ok : Bool)
      (found : Option AlertHistory) (st : AlertState fl)
      → CanFollow rule ans ok found st (act_on fl now rule ans avg ok found st)
  unfolding fire resolve_active
  act_on-CanFollow now rule ans avg true (some h) st = inl (refl, λ works. refl)
  act_on-CanFollow now rule ans avg false none st = inl (refl, λ works. refl)
  act_on-CanFollow now rule ans avg true none st = elim (Bool-cases ans.webhook_fails) [
    | inl failed ↦ rw failed (inl (refl, λ works. let (_, works', _, _) = works in cc))
    | inr got ↦ elim (Bool-cases ans.create_fails) [
      | inl failed ↦
          rw (got, failed)
            (inl (table-send_event ans _ st, λ works. let (_, _, works', _) = works in cc))
      | inr made ↦
          rw (got, made)
            (inr (inl (refl, refl, ap (create_alert_history rule.id) (table-send_event ans _ st))))
    ]
  ]
  act_on-CanFollow now rule ans avg false (some h) st = elim (Bool-cases ans.resolve_fails) [
    | inl failed ↦ rw failed (inl (refl, λ works. let (_, _, _, works') = works in cc))
    | inr done ↦ elim (Bool-cases ans.webhook_fails) [
      | inl failed ↦ rw (done, failed) (inr (inr (refl, (h, refl, refl))))
      | inr got ↦ rw (done, got) (inr (inr (refl, (h, refl, table-send_event ans _ _))))
    ]
  ]

  follow-IsValid :
      (rule : AlertRule fl) (ans : Answers fl) (ok : Bool) (st after : AlertState fl)
      → IsValid st.table
      → CanFollow rule ans ok (get_active_alert rule.id st.table) st after
      → IsValid after.table
  unfolding get_active_alert
  follow-IsValid rule ans ok st after valid (inl (same, _)) = rw same valid
  follow-IsValid rule ans ok st after valid (inr (inl (_, none_open, made))) = rw made (
      create_alert_history-IsValid rule.id st.table valid
        (open_row-none rule.id st.table.rows none_open))
  follow-IsValid rule ans ok st after valid (inr (inr (_, (h, _, done)))) =
      rw done (resolve_alert-IsValid h.id st.table valid)

  choose-IsValid :
      (failed : Bool) (st after : AlertState fl)
      → IsValid st.table
      → IsValid after.table
      → IsValid (if failed then st else after).table
  choose-IsValid true st after valid next = valid
  choose-IsValid false st after valid next = next

  points-IsValid :
      (now : ℕ) (rule : AlertRule fl) (ans : Answers fl) (ps : List (MetricPoint fl))
      (st : AlertState fl)
      → IsValid st.table
      → IsValid (act_on_points fl now rule ans ps st).table
  points-IsValid now rule ans [] st valid = valid
  points-IsValid now rule ans (p ∷ ps) st valid =
      let avg = average fl rule (p ∷ ps) in
      let ok = all (satisfies fl rule) (p ∷ ps) in
      let found = get_active_alert rule.id st.table in
      let after = act_on fl now rule ans avg ok found st in
      choose-IsValid ans.active_fails st after valid
        (follow-IsValid rule ans ok st after valid (act_on-CanFollow now rule ans avg ok found st))

  answer-IsValid :
      (now : ℕ) (rule : AlertRule fl) (ans : Answers fl) (answer : Option (List (MetricPoint fl)))
      (st : AlertState fl)
      → IsValid st.table
      → IsValid (act_on_answer fl now rule ans answer st).table
  answer-IsValid now rule ans none st valid = valid
  answer-IsValid now rule ans (some ps) st valid =
      points-IsValid now rule ans (in_window fl now rule ps) st valid

  loop-IsValid :
      (now : ℕ) (rules : List (AlertRule fl × Answers fl)) (st : AlertState fl)
      → IsValid st.table
      → IsValid (rules_loop fl now rules st).table
  unfolding rules_loop evaluate_rule
  loop-IsValid now [] st valid = valid
  loop-IsValid now ((rule, ans) ∷ rules) st valid =
      loop-IsValid now rules (evaluate_rule fl now rule ans st)
        (answer-IsValid now rule ans ans.points st valid)

  -- However the calls answer, an evaluation leaves at most one open row for each rule, and no two rows
  -- with one id, if that was so before.
  pub evaluate_once-IsValid :
      (now : ℕ) (rules : Option (List (AlertRule fl × Answers fl))) (st : AlertState fl)
      → IsValid st.table
      → IsValid (evaluate_once fl now rules st).0.table
  unfolding evaluate_once
  evaluate_once-IsValid now none st valid = valid
  evaluate_once-IsValid now (some rules) st valid = loop-IsValid now rules st valid
