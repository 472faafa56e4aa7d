-- ===== src/Alerts/Active.antt =====
-- Open rows of the table alert_history.
use simpledeploy.Prelude.{
  ℕ, ◌+◌, ◌<◌, Bool, true, false, ◌≡◌, ◌∙◌, ap, refl, arith, inl, inr, none, some, List, [],
  if◌then◌else◌, ◌∷◌, ◌==◌, nat_eq, any, All, Bool-cases, eqb_iff, beq_self,
}
use simpledeploy.Alerts.Table.{
  AlertHistory, AlertTable, is_open, open_row, create_alert_history, resolve_rows, resolve_alert,
}

abbrev pub has_open : ℕ → List AlertHistory → Bool
has_open rule hs = any (is_open rule) hs

abbrev has_id : ℕ → List AlertHistory → Bool
has_id id hs = any (λ g. g.id == id) hs

-- No two rows have one id, and no two open rows one rule.
abbrev pub OneOpen : List AlertHistory → Type 0
OneOpen [] = Unit
OneOpen (h ∷ hs) =
    (has_id h.id hs ≡ false) × (h.resolved ≡ false → has_open h.rule_id hs ≡ false) × OneOpen hs

abbrev pub IsValid : AlertTable → Type 0
IsValid t = OneOpen t.rows × All (λ h. h.id < t.next_id) t.rows

pub open_row-none :
    (rule : ℕ) (hs : List AlertHistory) → open_row rule hs ≡ none → has_open rule hs ≡ false
unfolding open_row
open_row-none rule [] e = refl
open_row-none rule (h ∷ hs) e = elim (Bool-cases (is_open rule h)) [
  | inl here ↦ let no = rw here at e in cc
  | inr not_here ↦ rw not_here (open_row-none rule hs (rw not_here at e))
]

pub open_row-some :
    (rule : ℕ) (hs : List AlertHistory) (h : AlertHistory)
    → open_row rule hs ≡ some h
    → (has_open rule hs ≡ true) × (has_id h.id hs ≡ true)
unfolding open_row
open_row-some rule [] h e = cc
open_row-some rule (g ∷ hs) h e = elim (Bool-cases (is_open rule g)) [
  | inl here ↦
      let same : some g ≡ some h = rw here at e in
      let at_h : g ≡ h = cc in (rw here refl, rw (at_h, beq_self h.id) refl)
  | inr not_here ↦
      let (opened, found) = open_row-some rule hs h (rw not_here at e) in
      (rw (not_here, opened) refl, ground arith)
]

has_id-resolve_rows :
    (id k : ℕ) (hs : List AlertHistory) → has_id k (resolve_rows id hs) ≡ has_id k hs
unfolding resolve_rows
has_id-resolve_rows id k [] = refl
has_id-resolve_rows id k (h ∷ hs) = elim (Bool-cases (h.id == id)) [
  | inl same ↦ rw (same, has_id-resolve_rows id k hs) refl
  | inr other ↦ rw (other, has_id-resolve_rows id k hs) refl
]

has_open-resolve_rows :
    (rule id : ℕ) (hs : List AlertHistory)
    → has_open rule hs ≡ false
    → has_open rule (resolve_rows id hs) ≡ false
unfolding resolve_rows
has_open-resolve_rows rule id [] e = refl
has_open-resolve_rows rule id (h ∷ hs) e = elim (Bool-cases (h.id == id)) [
  | inl same ↦ rw same (ground (arith, has_open-resolve_rows rule id hs))
  | inr other ↦ rw other (ground (arith, has_open-resolve_rows rule id hs))
]

OneOpen-resolve_rows : (id : ℕ) (hs : List AlertHistory) → OneOpen hs → OneOpen (resolve_rows id hs)
unfolding resolve_rows
OneOpen-resolve_rows id [] ok = tt
OneOpen-resolve_rows id (h ∷ hs) (fresh, single, ok) = elim (Bool-cases (h.id == id)) [
  | inl same ↦
      rw same (has_id-resolve_rows id h.id hs ∙ fresh, λ off. cc, OneOpen-resolve_rows id hs ok)
  | inr other ↦ rw other (
    has_id-resolve_rows id h.id hs ∙ fresh,
    λ off. has_open-resolve_rows h.rule_id id hs (single off),
    OneOpen-resolve_rows id hs ok,
  )
]

resolve_rows-absent :
    (id : ℕ) (hs : List AlertHistory) → has_id id hs ≡ false → resolve_rows id hs ≡ hs
unfolding resolve_rows
resolve_rows-absent id [] e = refl
resolve_rows-absent id (h ∷ hs) e =
    let other : (h.id == id) ≡ false = ground arith in
    rw other (ap (λ l. h ∷ l) (resolve_rows-absent id hs (ground arith)))

-- Resolving the open row of a rule leaves it none.
pub resolve_rows-closes :
    (rule : ℕ) (hs : List AlertHistory) (h : AlertHistory)
    → OneOpen hs
    → open_row rule hs ≡ some h
    → has_open rule (resolve_rows h.id hs) ≡ false
unfolding open_row resolve_rows
resolve_rows-closes rule [] h ok e = refl
resolve_rows-closes rule (g ∷ hs) h (fresh, single, ok) e = elim (Bool-cases (is_open rule g)) [
  | inl here ↦
      let same : some g ≡ some h = rw here at e in
      let at_h : g ≡ h = cc in
      let at_rule : g.rule_id ≡ rule = (eqb_iff g.rule_id rule).0 (ground arith) in
      let closed : has_open rule hs ≡ false = rw at_rule at (single (ground arith)) in
      let rest = has_open-resolve_rows rule h.id hs closed in
      let hit : (g.id == h.id) ≡ true = rw at_h (beq_self h.id) in rw hit (ground (arith, rest))
  | inr not_here ↦
      let rest = resolve_rows-closes rule hs h ok (rw not_here at e) in
      elim (Bool-cases (g.id == h.id)) [
        | inl same ↦ rw same (ground (arith, rest))
        | inr other ↦ rw (other, not_here) rest
      ]
]

-- The rows of all other rules, in order.
abbrev pub others : ℕ → List AlertHistory → List AlertHistory
others rule [] = []
others rule (h ∷ hs) = let rest = others rule hs in if h.rule_id == rule then rest else h ∷ rest

apart_ids :
    (i j : ℕ) (rows : List AlertHistory)
    → has_id i rows ≡ false
    → has_id j rows ≡ true
    → (i == j) ≡ false
apart_ids i j rows off on = elim (Bool-cases (i == j)) [
  | inl equal ↦ let at_j = (eqb_iff i j).0 equal in let no = rw at_j at off in cc
  | inr differ ↦ differ
]

-- Resolving the open row of a rule leaves the rows of the other rules as they are.
pub resolve_rows-others :
    (rule : ℕ) (hs : List AlertHistory) (h : AlertHistory)
    → OneOpen hs
    → open_row rule hs ≡ some h
    → others rule (resolve_rows h.id hs) ≡ others rule hs
unfolding open_row resolve_rows
resolve_rows-others rule [] h ok e = refl
resolve_rows-others rule (g ∷ hs) h (fresh, single, ok) e = elim (Bool-cases (is_open rule g)) [
  | inl here ↦
      let same : some g ≡ some h = rw here at e in
      let at_h : g ≡ h = cc in
      let own : (g.rule_id == rule) ≡ true = ground arith in
      let hit : (g.id == h.id) ≡ true = rw at_h (beq_self h.id) in
      let absent : resolve_rows h.id hs ≡ hs = resolve_rows-absent h.id hs (rw at_h at fresh) in
      rw (hit, absent, own) refl
  | inr not_here ↦
      let e' = rw not_here at e in
      let (_, found) = open_row-some rule hs h e' in
      let miss : (g.id == h.id) ≡ false = apart_ids g.id h.id hs fresh found in
      rw (miss, resolve_rows-others rule hs h ok e') refl
]

below-resolve_rows :
    (id bound : ℕ) (hs : List AlertHistory)
    → All (λ h. h.id < bound) hs
    → All (λ h. h.id < bound) (resolve_rows id hs)
unfolding resolve_rows
below-resolve_rows id bound [] ok = tt
below-resolve_rows id bound (h ∷ hs) (below, ok) = elim (Bool-cases (h.id == id)) [
  | inl same ↦ rw same (below, below-resolve_rows id bound hs ok)
  | inr other ↦ rw other (below, below-resolve_rows id bound hs ok)
]

pub resolve_alert-IsValid : (id : ℕ) (t : AlertTable) → IsValid t → IsValid (resolve_alert id t)
unfolding resolve_alert
resolve_alert-IsValid id t (single, below) =
    (OneOpen-resolve_rows id t.rows single, below-resolve_rows id t.next_id t.rows below)

fresh_id :
    (bound : ℕ) (hs : List AlertHistory) → All (λ h. h.id < bound) hs → has_id bound hs ≡ false
fresh_id bound [] ok = refl
fresh_id bound (h ∷ hs) (below, ok) = ground (arith, fresh_id bound hs ok)

below_next :
    (bound : ℕ) (hs : List AlertHistory)
    → All (λ h. h.id < bound) hs
    → All (λ h. h.id < bound + 1) hs
below_next bound [] ok = tt
below_next bound (h ∷ hs) (below, ok) = (omega (arith, below), below_next bound hs ok)

-- A row for a rule without an open one.
pub create_alert_history-IsValid :
    (rule : ℕ) (t : AlertTable)
    → IsValid t
    → has_open rule t.rows ≡ false
    → IsValid (create_alert_history rule t)
unfolding create_alert_history
create_alert_history-IsValid rule t (single, below) closed = (
  (fresh_id t.next_id t.rows below, λ off. closed, single),
  (omega arith, below_next t.next_id t.rows below),
)
