-- ===== src/Proxy/Match/Sorted.antt =====
-- The order inside a domain, and what sorting the domains keeps.
use simpledeploy.Prelude.{
  ℕ, Bool, true, false, not, ◌||◌, ◌≡◌, ◌∙◌, ap, inl, inr, refl, arith, List, [], ◌∷◌, ◌++◌,
  append_assoc, if◌then◌else◌, ◌==◌, ltb, length, nat_eq, All, Bool-cases,
}
use mathlib.Core.List.{Perm, perm_append_comm}
use mathlib.Core.List.Perm
use simpledeploy.Prelude.Text.{
  Text, text_eq, text_lt, text_beq_iff, text_lt_irrefl, text_lt_trans, text_lt_total,
}
use simpledeploy.Prelude.Dict.{Dict, lookup}
use simpledeploy.Prelude.Sort.{StrictWeak, sort_stable, insert_sorted, sort_stable-perm}
use simpledeploy.Proxy.Host.{domain_less}
use simpledeploy.Proxy.Host.Served.{listed}
use simpledeploy.Proxy.Route.{Route}
use simpledeploy.Proxy.Match.{route_rank, route_less, held, emit}
use simpledeploy.Proxy.Match.Groups.{Distinct, raw}

route_less_asym : (a b : Route) → route_less a b ≡ true → route_less b a ≡ false
unfolding route_less
route_less_asym a b h = ground (arith, text_lt_trans a.path b.path a.path, text_lt_irrefl a.path)

text_lt_neg_trans : (s t u : Text) → text_lt s t ≡ false → text_lt t u ≡ false → text_lt s u ≡ false
text_lt_neg_trans s t u h k = ground (arith, text_lt_total s t, text_lt_trans t s u, h, k)

-- The three tests of route_less, one after the other.
abbrev lex : ℕ → ℕ → ℕ → ℕ → Bool → Bool
lex ra rb la lb lt = if not (ra == rb) then ltb ra rb else if not (la == lb) then ltb lb la else lt

lex_neg_trans :
    (ra rb rc la lb lc : ℕ) (x y z : Bool)
    → (x ≡ false → y ≡ false → z ≡ false)
    → lex ra rb la lb x ≡ false
    → lex rb rc lb lc y ≡ false
    → lex ra rc la lc z ≡ false
lex_neg_trans ra rb rc la lb lc x y z t h k = ground (arith, t)

route_less_neg_trans :
    (a b c : Route) → route_less a b ≡ false → route_less b c ≡ false → route_less a c ≡ false
unfolding route_less
route_less_neg_trans a b c h k =
    lex_neg_trans (route_rank a) (route_rank b) (route_rank c) (length a.path) (length b.path)
      (length c.path) (text_lt a.path b.path) (text_lt b.path c.path) (text_lt a.path c.path)
      (text_lt_neg_trans a.path b.path c.path) h k

pub route_less-StrictWeak : StrictWeak route_less
route_less-StrictWeak = record { asym = route_less_asym; neg_trans = route_less_neg_trans }

listed-insert_sorted :
    (k d : Text) (ds : List Text)
    → listed k (insert_sorted domain_less d ds) ≡ (d == k || listed k ds)
unfolding listed insert_sorted
listed-insert_sorted k d [] = refl
listed-insert_sorted k d (e ∷ ds) = elim (Bool-cases (domain_less e d)) [
  | inl below ↦ rw below (ground (arith, listed-insert_sorted k d ds))
  | inr other ↦ rw other refl
]

listed-sort_stable :
    (k : Text) (ds : List Text) → listed k (sort_stable domain_less ds) ≡ listed k ds
unfolding listed sort_stable
listed-sort_stable k [] = refl
listed-sort_stable k (d ∷ ds) =
    listed-insert_sorted k d (sort_stable domain_less ds)
    ∙ ap (λ b. d == k || b) (listed-sort_stable k ds)

insert_sorted-Distinct :
    (d : Text) (ds : List Text)
    → listed d ds ≡ false
    → Distinct ds
    → Distinct (insert_sorted domain_less d ds)
unfolding listed insert_sorted
insert_sorted-Distinct d [] fresh h = (refl, tt)
insert_sorted-Distinct d (e ∷ ds) fresh (apart, h) = elim (Bool-cases (domain_less e d)) [
  | inl below ↦ rw below (
    rw listed-insert_sorted (ground (arith, text_beq_iff e d, text_beq_iff d e)),
    insert_sorted-Distinct d ds (ground arith) h,
  )
  | inr other ↦ rw other (fresh, (apart, h))
]

pub sort_stable-Distinct : (ds : List Text) → Distinct ds → Distinct (sort_stable domain_less ds)
unfolding sort_stable
sort_stable-Distinct [] h = tt
sort_stable-Distinct (d ∷ ds) (fresh, h) =
    insert_sorted-Distinct d (sort_stable domain_less ds) (listed-sort_stable d ds ∙ fresh)
      (sort_stable-Distinct ds h)

-- The domains behind the first one differ from it and are not below it.
pub behind :
    (d : Text) (ds : List Text)
    → listed d ds ≡ false
    → All (λ e. domain_less e d ≡ false) ds
    → All (λ e. ((e == d) ≡ false) × (domain_less e d ≡ false)) ds
unfolding listed
behind d [] fresh h = tt
behind d (e ∷ ds) fresh (below, h) = ((ground arith, below), behind d ds (ground arith) h)

insert_sorted-raw :
    (groups : Dict Text (List Route)) (d : Text) (ds : List Text)
    → Perm (raw groups (insert_sorted domain_less d ds)) (held (lookup d groups) ++ raw groups ds)
unfolding raw insert_sorted
insert_sorted-raw groups d [] = Perm.refl (held (lookup d groups) ++ [])
insert_sorted-raw groups d (e ∷ ds) = elim (Bool-cases (domain_less e d)) [
  | inl below ↦
      let g = held (lookup d groups) in
      let f = held (lookup e groups) in
      rw below
        (Perm.trans (Perm.append_left f (insert_sorted-raw groups d ds)) (swap f g (raw groups ds)))
  | inr other ↦
      rw other (Perm.refl (held (lookup d groups) ++ (held (lookup e groups) ++ raw groups ds)))
]
  where
    swap : (f g rest : List Route) → Perm (f ++ (g ++ rest)) (g ++ (f ++ rest))
    swap f g rest =
        rw (← append_assoc f g rest, ← append_assoc g f rest)
          (Perm.append_right rest (perm_append_comm f g))

pub sort_stable-raw :
    (groups : Dict Text (List Route)) (ds : List Text)
    → Perm (raw groups (sort_stable domain_less ds)) (raw groups ds)
unfolding raw sort_stable
sort_stable-raw groups [] = Perm.refl []
sort_stable-raw groups (d ∷ ds) =
    Perm.trans (insert_sorted-raw groups d (sort_stable domain_less ds))
      (Perm.append_left (held (lookup d groups)) (sort_stable-raw groups ds))

pub emit-raw :
    (groups : Dict Text (List Route)) (ds : List Text) → Perm (emit groups ds) (raw groups ds)
unfolding emit raw
emit-raw groups [] = Perm.refl []
emit-raw groups (d ∷ ds) =
    Perm.append (sort_stable-perm route_less (held (lookup d groups))) (emit-raw groups ds)
