-- ===== src/Alerts/Table.antt =====
-- The table alert_history of internal/store/alerts.go, the latest row in front.
use simpledeploy.Prelude.{
  ℕ, ◌+◌, Bool, true, false, not, ◌&&◌, Option, none, some, List, [], ◌∷◌, if◌then◌else◌, ◌==◌,
  nat_eq,
}

-- The columns that tell which rows are open.
pub record AlertHistory : Type 0 where
  pub id : ℕ
  pub rule_id : ℕ
  pub resolved : Bool

pub record AlertTable : Type 0 where
  pub rows : List AlertHistory
  pub next_id : ℕ

abbrev pub is_open : ℕ → AlertHistory → Bool
is_open rule h = h.rule_id == rule && not h.resolved

-- The latest row of the rule that is not resolved.
unfoldable pub open_row : ℕ → List AlertHistory → Option AlertHistory
open_row rule [] = none
open_row rule (h ∷ hs) = let rest = open_row rule hs in if is_open rule h then some h else rest

unfoldable pub get_active_alert : ℕ → AlertTable → Option AlertHistory
unfolding open_row
get_active_alert rule t = open_row rule t.rows

unfoldable pub create_alert_history : ℕ → AlertTable → AlertTable
create_alert_history rule t = record {
  rows = record { id = t.next_id; rule_id = rule; resolved = false } ∷ t.rows;
  next_id = t.next_id + 1;
}

unfoldable pub resolve_rows : ℕ → List AlertHistory → List AlertHistory
resolve_rows id [] = []
resolve_rows id (h ∷ hs) =
    (if h.id == id then record h { resolved = true } else h) ∷ resolve_rows id hs

unfoldable pub resolve_alert : ℕ → AlertTable → AlertTable
unfolding resolve_rows
resolve_alert id t = record t { rows = resolve_rows id t.rows }
