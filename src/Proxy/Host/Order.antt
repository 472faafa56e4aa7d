-- ===== src/Proxy/Host/Order.antt =====
-- `domainLess` is a strict total order.
use simpledeploy.Prelude.{true, false, ◌≡◌, arith, nat_eq}
use simpledeploy.Prelude.Text.{Text, text_lt_irrefl, text_lt_trans, text_lt_total}
use simpledeploy.Prelude.Sort.{StrictWeak}
use simpledeploy.Proxy.Host.{domain_less}

pub domain_less_irrefl : (a : Text) → domain_less a a ≡ false
unfolding domain_less
domain_less_irrefl a = ground (arith, text_lt_irrefl a)

pub domain_less_trans :
    (a b c : Text) → domain_less a b ≡ true → domain_less b c ≡ true → domain_less a c ≡ true
unfolding domain_less
domain_less_trans a b c h k = ground (arith, text_lt_trans a b c)

pub domain_less_total : (a b : Text) → domain_less a b ≡ false → domain_less b a ≡ false → a ≡ b
unfolding domain_less
domain_less_total a b h k = ground (arith, text_lt_total a b)

pub domain_less_asym : (a b : Text) → domain_less a b ≡ true → domain_less b a ≡ false
domain_less_asym a b h = ground (arith, domain_less_trans a b a, domain_less_irrefl a)

pub domain_less_neg_trans :
    (a b c : Text) → domain_less a b ≡ false → domain_less b c ≡ false → domain_less a c ≡ false
domain_less_neg_trans a b c h k =
    ground (arith, domain_less_total a b, domain_less_trans b a c, h, k)

pub domain_less-StrictWeak : StrictWeak domain_less
domain_less-StrictWeak = record { asym = domain_less_asym; neg_trans = domain_less_neg_trans }
