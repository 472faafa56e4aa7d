-- ===== src/Auth/RealIp/Spoofing.antt =====
-- What a client can reach by writing headers.
use mathlib.Core.List.{reverse, reverse-append}
use simpledeploy.Prelude.{
  ℕ, true, false, ◌≡◌, ◌≢◌, ◌⊎◌, inl, inr, refl, ap, some, List, [], ◌∷◌, ◌++◌, ◌==◌, arith,
  Bool-cases, Option-cases, All,
}
use simpledeploy.Prelude.Text.{Text, text_eq, split, trim_space, split-append, text_beq_iff}
use simpledeploy.Net.{Net}
use simpledeploy.Auth.RealIp.{
  Request, is_trusted, direct_ip, last_untrusted, real_ip, request_is_https,
}

append-ne-nil : (s : Text) (c : ℕ) (t : Text) → s ++ c ∷ t ≢ []
append-ne-nil [] c t e = cc
append-ne-nil (d ∷ s) c t e = cc

module _ (net : Net) where
  -- An untrusted peer chooses no address and no scheme: its headers are not read.
  pub headers_ignored :
      (r : Request) (trusted : List Text) (xff proto : Text)
      → is_trusted net (direct_ip net r) trusted ≡ false
      → (real_ip net (record r { forwarded_for = xff }) trusted ≡ direct_ip net r)
        × (request_is_https net (record r { forwarded_proto = proto }) trusted ≡ r.tls)
  unfolding real_ip request_is_https direct_ip
  headers_ignored r [] xff proto h = (refl, ground arith)
  headers_ignored r (t ∷ ts) xff proto h = (ground arith, ground arith)

  last_untrusted-append :
      (trusted ps qs : List Text) (ip : Text)
      → last_untrusted net trusted ps ≡ some ip
      → last_untrusted net trusted (ps ++ qs) ≡ some ip
  unfolding last_untrusted
  last_untrusted-append trusted [] qs ip h = cc
  last_untrusted-append trusted (p ∷ ps) qs ip h =
      ground (arith, last_untrusted-append trusted ps qs ip)

  -- What a client writes before the part that the trusted proxies added changes nothing, as long
  -- as that part names an untrusted address.
  pub prefix_ignored :
      (r : Request) (trusted : List Text) (client added ip : Text)
      → added ≢ []
      → last_untrusted net trusted (reverse (split b',' added)) ≡ some ip
      → real_ip net (record r { forwarded_for = client ++ b',' ∷ added }) trusted
        ≡ real_ip net (record r { forwarded_for = added }) trusted
  unfolding real_ip direct_ip
  prefix_ignored r [] client added ip ne h = refl
  prefix_ignored r (t ∷ ts) client added ip ne h =
      let behind : last_untrusted net (t ∷ ts) (reverse (split b',' (client ++ b',' ∷ added)))
          ≡ some ip =
        rw (split-append, reverse-append)
          (last_untrusted-append (t ∷ ts) (reverse (split b',' added)) (reverse (split b',' client))
            ip h) in
      let whole = client ++ b',' ∷ added in
      ground (
        arith,
        behind,
        h,
        text_beq_iff added [],
        text_beq_iff whole [],
        append-ne-nil client b',' added,
      )

  abbrev pub Skipped : List Text → Text → Type 0
  Skipped trusted p = (trim_space p ≡ []) ⊎ (is_trusted net (trim_space p) trusted ≡ true)

  -- `ip` is the part nearest to the start of `ps` that is neither blank nor trusted.
  abbrev pub FirstUntrusted : List Text → List Text → Text → Type 0
  FirstUntrusted trusted ps ip =
      (pre : List Text) × (p : Text) × (post : List Text) × (ps ≡ pre ++ p ∷ post)
      × (trim_space p ≡ ip)
      × (ip ≢ [])
      × (is_trusted net ip trusted ≡ false)
      × All (Skipped trusted) pre

  skip :
      (trusted ps : List Text) (q ip : Text)
      → Skipped trusted q
      → FirstUntrusted trusted ps ip
      → FirstUntrusted trusted (q ∷ ps) ip
  skip trusted ps q ip sq (pre, p, post, e, trimmed, ne, unt, skipped) =
      (q ∷ pre, p, post, ap (λ l. q ∷ l) e, trimmed, ne, unt, (sq, skipped))

  last_untrusted_split :
      (trusted ps : List Text) (ip : Text)
      → last_untrusted net trusted ps ≡ some ip
      → FirstUntrusted trusted ps ip
  unfolding last_untrusted
  last_untrusted_split trusted [] ip h = cc
  last_untrusted_split trusted (p ∷ ps) ip h = elim (Bool-cases (trim_space p == [])) [
    | inl blank ↦
        skip trusted ps p ip (inl ((text_beq_iff _ _).0 blank))
          (last_untrusted_split trusted ps ip (rw blank at h))
    | inr full ↦ elim (Bool-cases (is_trusted net (trim_space p) trusted)) [
      | inl known ↦
          skip trusted ps p ip (inr known)
            (last_untrusted_split trusted ps ip (rw (full, known) at h))
      | inr unknown ↦
          let e : trim_space p ≡ ip = ground arith in
          ([], p, ps, refl, e, ground (arith, text_beq_iff (trim_space p) []), cc, tt)
    ]
  ]

  -- The address is the peer's, or the peer is a trusted proxy and the address is the part of the
  -- header that is neither blank nor trusted and has only blank or trusted parts behind it.
  pub real_ip_source :
      (r : Request) (trusted : List Text)
      → (real_ip net r trusted ≡ direct_ip net r)
        ⊎ ((is_trusted net (direct_ip net r) trusted ≡ true)
            × FirstUntrusted trusted (reverse (split b',' r.forwarded_for)) (real_ip net r trusted))
  unfolding real_ip
  real_ip_source r [] = inl refl
  real_ip_source r (t ∷ ts) =
      let parts = reverse (split b',' r.forwarded_for) in
      elim (Bool-cases (is_trusted net (direct_ip net r) (t ∷ ts))) [
        | inr unknown ↦ inl (rw unknown)
        | inl known ↦ elim (Bool-cases (r.forwarded_for == [])) [
          | inl empty ↦ inl (rw (known, empty))
          | inr full ↦ elim (Option-cases (last_untrusted net (t ∷ ts) parts)) [
            | inl e ↦ inl (rw (known, full, e))
            | inr (ip, e) ↦
                inr (known, rw (known, full, e) (last_untrusted_split (t ∷ ts) parts ip e))
          ]
        ]
      ]
