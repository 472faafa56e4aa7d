-- ===== src/Proxy/Match/Ordered.antt =====
-- orderRoutes only reorders the routes, and puts them in the order in which Caddy has to try them.
use simpledeploy.Prelude.{
  nat_eq, Bool, false, ◌≡◌, inl, inr, refl, List, [], ◌∷◌, ◌++◌, append-nil, if◌then◌else◌, ◌==◌,
  All, All-append, Bool-cases,
}
use mathlib.Core.List.{Perm}
use mathlib.Core.List.Perm
use simpledeploy.Prelude.Text.{Text, text_eq, text_beq_iff}
use simpledeploy.Prelude.Dict.{Dict, lookup}
use simpledeploy.Prelude.Sort.{sort_stable, IsSorted, sort_stable-IsSorted, sort_stable-All}
use simpledeploy.Net.{Net}
use simpledeploy.Proxy.Host.{normalize_domain, domain_less}
use simpledeploy.Proxy.Host.Order.{domain_less_irrefl, domain_less-StrictWeak}
use simpledeploy.Proxy.Route.{Route}
use simpledeploy.Proxy.Match.{route_less, held, emit, group_loop, order_routes}
use simpledeploy.Proxy.Match.Groups.{Distinct, raw, group_loop-IsGrouped, nil-IsGrouped}
use simpledeploy.Proxy.Match.Sorted.{
  route_less-StrictWeak, sort_stable-Distinct, behind, sort_stable-raw, emit-raw,
}

IsSorted-append :
    {A : Type 0} (lt : A → A → Bool) (xs ys : List A)
    → IsSorted lt xs
    → IsSorted lt ys
    → All (λ x. All (λ y. lt y x ≡ false) ys) xs
    → IsSorted lt (xs ++ ys)
IsSorted-append lt [] ys hx hy cross = hy
IsSorted-append lt (x ∷ xs) ys (hx, hxs) hy (cx, cross) =
    (All-append (λ y. lt y x ≡ false) xs ys hx cx, IsSorted-append lt xs ys hxs hy cross)

module _ (net : Net) where
  -- One route comes before another: by their domains, and on one domain the more specific one first.
  unfoldable pub route_before : Route → Route → Bool
  route_before a b =
      if normalize_domain net a.domain == normalize_domain net b.domain
      then route_less a b
      else domain_less (normalize_domain net a.domain) (normalize_domain net b.domain)

  abbrev IsOf : Text → Route → Type 0
  IsOf d r = normalize_domain net r.domain ≡ d

  own-below :
      (d : Text) (x : Route) (ys : List Route)
      → IsOf d x
      → All (IsOf d) ys
      → All (λ y. route_less y x ≡ false) ys
      → All (λ y. route_before y x ≡ false) ys
  unfolding route_before
  own-below d x [] ox oys h = tt
  own-below d x (y ∷ ys) ox (oy, oys) (hy, h) =
      (rw (ox, oy, (text_beq_iff d d).1 refl) hy, own-below d x ys ox oys h)

  own-IsSorted :
      (d : Text) (xs : List Route)
      → All (IsOf d) xs
      → IsSorted route_less xs
      → IsSorted route_before xs
  own-IsSorted d [] own h = tt
  own-IsSorted d (x ∷ xs) (ox, own) (hx, h) = (own-below d x xs ox own hx, own-IsSorted d xs own h)

  other-below :
      (d e : Text) (x : Route) (ys : List Route)
      → IsOf d x
      → (e == d) ≡ false
      → domain_less e d ≡ false
      → All (IsOf e) ys
      → All (λ y. route_before y x ≡ false) ys
  unfolding route_before
  other-below d e x [] ox apart below own = tt
  other-below d e x (y ∷ ys) ox apart below (oy, own) =
      (rw (ox, oy, apart) below, other-below d e x ys ox apart below own)

  module _ (groups : Dict Text (List Route))
      (own : (k : Text) → All (IsOf k) (held (lookup k groups))) where
    emit-below :
        (d : Text) (x : Route) (ds : List Text)
        → IsOf d x
        → All (λ e. ((e == d) ≡ false) × (domain_less e d ≡ false)) ds
        → All (λ y. route_before y x ≡ false) (emit groups ds)
    unfolding emit
    emit-below d x [] ox h = tt
    emit-below d x (e ∷ ds) ox ((apart, below), h) =
        All-append (λ y. route_before y x ≡ false) (sort_stable route_less (held (lookup e groups)))
          (emit groups ds)
          (other-below d e x (sort_stable route_less (held (lookup e groups))) ox apart below
            (sort_stable-All route_less (IsOf e) (held (lookup e groups)) (own e)))
          (emit-below d x ds ox h)

    group-below :
        (d : Text) (xs : List Route) (ds : List Text)
        → All (IsOf d) xs
        → All (λ e. ((e == d) ≡ false) × (domain_less e d ≡ false)) ds
        → All (λ x. All (λ y. route_before y x ≡ false) (emit groups ds)) xs
    group-below d [] ds oxs h = tt
    group-below d (x ∷ xs) ds (ox, oxs) h = (emit-below d x ds ox h, group-below d xs ds oxs h)

    emit-IsSorted :
        (ds : List Text)
        → Distinct ds
        → IsSorted domain_less ds
        → IsSorted route_before (emit groups ds)
    unfolding emit
    emit-IsSorted [] distinct sorted = tt
    emit-IsSorted (d ∷ ds) (fresh, distinct) (below, sorted) =
        let g = sort_stable route_less (held (lookup d groups)) in
        let of_d = sort_stable-All route_less (IsOf d) (held (lookup d groups)) (own d) in
        IsSorted-append route_before g (emit groups ds)
          (own-IsSorted d g of_d
            (sort_stable-IsSorted route_less route_less-StrictWeak (held (lookup d groups))))
          (emit-IsSorted ds distinct sorted) (group-below d g ds of_d (behind d ds fresh below))

  pub order_routes-IsSorted :
      (rs : List Route)
      → Perm (order_routes net rs) rs × IsSorted route_before (order_routes net rs)
  unfolding order_routes raw
  order_routes-IsSorted rs =
      let ((distinct, keyed, own), same) = group_loop-IsGrouped net rs [] [] (nil-IsGrouped net) in
      let groups = (group_loop net rs [] []).0 in
      let domains = (group_loop net rs [] []).1 in
      let sorted = sort_stable domain_less domains in
      (
        Perm.trans (emit-raw groups sorted)
            (Perm.trans (sort_stable-raw groups domains) (rw append-nil at same)),
        emit-IsSorted groups own sorted (sort_stable-Distinct domains distinct)
            (sort_stable-IsSorted domain_less domain_less-StrictWeak domains),
      )

  abbrev pub domains_of : List Route → List Text
  domains_of [] = []
  domains_of (r ∷ rs) = normalize_domain net r.domain ∷ domains_of rs

  below-domains :
      (x : Route) (ys : List Route)
      → All (λ y. route_before y x ≡ false) ys
      → All (λ e. domain_less e (normalize_domain net x.domain) ≡ false) (domains_of ys)
  unfolding route_before
  below-domains x [] h = tt
  below-domains x (y ∷ ys) (hy, h) = (
    elim (Bool-cases (normalize_domain net y.domain == normalize_domain net x.domain)) [
      | inl same ↦
          let at_x =
            (text_beq_iff (normalize_domain net y.domain) (normalize_domain net x.domain)).0 same in
          rw at_x (domain_less_irrefl (normalize_domain net x.domain))
      | inr other ↦ rw other at hy
    ],
    below-domains x ys h,
  )

  IsSorted-domains :
      (rs : List Route) → IsSorted route_before rs → IsSorted domain_less (domains_of rs)
  IsSorted-domains [] h = tt
  IsSorted-domains (r ∷ rs) (hr, h) = (below-domains r rs hr, IsSorted-domains rs h)

  -- The domains of the ordered routes are in the order of domainLess.
  pub domains_of-order_routes :
      (rs : List Route) → IsSorted domain_less (domains_of (order_routes net rs))
  domains_of-order_routes rs = IsSorted-domains (order_routes net rs) (order_routes-IsSorted rs).1
