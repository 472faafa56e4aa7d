-- ===== src/Compose/Container/Harmless.antt =====
-- Capabilities and security options that are refused, listed apart from the code.
use simpledeploy.Prelude.{
  true, false, ◌≡◌, inl, inr, refl, arith, List, [], ◌∷◌, ◌++◌, ◌==◌, any, all, All, Bool-cases,
  nat_eq,
}
use simpledeploy.Prelude.Text.{
  Text, text_eq, text_beq, text_beq_iff, codes, has_prefix, to_lower, trim_space, trim_prefix,
}
use simpledeploy.Compose.Container.{
  dangerous_caps, unsafe_spelt, to_upper, remove_spaces, cut_option,
}

-- Capabilities that reach past the container, and spellings of options that drop its confinement.
abbrev pub host_caps : List Text
host_caps =
    codes "ALL"
    ∷ codes "BPF"
    ∷ codes "DAC_OVERRIDE"
    ∷ codes "DAC_READ_SEARCH"
    ∷ codes "MKNOD"
    ∷ codes "NET_ADMIN"
    ∷ codes "NET_RAW"
    ∷ codes "PERFMON"
    ∷ codes "SYS_ADMIN"
    ∷ codes "SYS_BOOT"
    ∷ codes "SYS_MODULE"
    ∷ codes "SYS_PTRACE"
    ∷ codes "SYS_RAWIO"
    ∷ codes "SYS_TIME"
    ∷ []

abbrev pub unconfined_opts : List Text
unconfined_opts =
    codes "seccomp=unconfined"
    ∷ codes "seccomp:unconfined"
    ∷ codes "apparmor=unconfined"
    ∷ codes "apparmor:unconfined"
    ∷ codes "systempaths=unconfined"
    ∷ codes "systempaths:unconfined"
    ∷ codes "label=disable"
    ∷ codes "label:disable"
    ∷ codes "label=type:spc_t"
    ∷ codes "label:type:spc_t"
    ∷ codes "no-new-privileges=false"
    ∷ codes "no-new-privileges:false"
    ∷ []

abbrev pub with_cap : List Text → List Text
with_cap [] = []
with_cap (c ∷ cs) = (codes "CAP_" ++ c) ∷ with_cap cs

-- The capability is none of these, in any case, with "CAP_" in front or not.
abbrev pub IsHarmlessCap : Text → Type 0
IsHarmlessCap cap =
    All (λ bad. (to_upper (trim_space cap) == bad) ≡ false) (host_caps ++ with_cap host_caps)

-- The option is none of these, in any case and with any spaces.
abbrev pub IsConfinedOpt : Text → Type 0
IsConfinedOpt o = All (λ bad. (to_lower (remove_spaces o) == bad) ≡ false) unconfined_opts

pub normalized-bad :
    (bads : List Text) (spelt : Text)
    → any (λ bad. trim_prefix spelt (codes "CAP_") == bad) dangerous_caps ≡ false
    → all (λ bad. any (λ b. trim_prefix bad (codes "CAP_") == b) dangerous_caps) bads ≡ true
    → All (λ bad. (spelt == bad) ≡ false) bads
normalized-bad [] spelt h all_bad = tt
normalized-bad (bad ∷ bads) spelt h all_bad =
    let is_bad : any (λ b. trim_prefix bad (codes "CAP_") == b) dangerous_caps ≡ true =
      ground arith in
    (
      elim (Bool-cases (spelt == bad)) [
        | inl same ↦ let at_bad = (text_beq_iff spelt bad).0 same in let no = rw at_bad at h in cc
        | inr apart ↦ apart
      ],
      normalized-bad bads spelt h (ground arith),
    )

pub unsafe-bad :
    (bads : List Text) (o : Text)
    → unsafe_spelt (to_lower (remove_spaces o)) ≡ false
    → all unsafe_spelt bads ≡ true
    → All (λ bad. (to_lower (remove_spaces o) == bad) ≡ false) bads
unsafe-bad [] o h all_bad = tt
unsafe-bad (bad ∷ bads) o h all_bad =
    let is_bad : unsafe_spelt bad ≡ true = ground arith in
    (
      elim (Bool-cases (to_lower (remove_spaces o) == bad)) [
        | inl same ↦
            let at_bad = (text_beq_iff (to_lower (remove_spaces o)) bad).0 same in
            let no = rw at_bad at h in cc
        | inr apart ↦ apart
      ],
      unsafe-bad bads o h (ground arith),
    )

pub caps-bad :
    all
      (λ bad. any (λ b. trim_prefix bad (codes "CAP_") == b) dangerous_caps)
      (host_caps ++ with_cap host_caps)
    ≡ true
unfolding trim_prefix has_prefix text_beq
caps-bad = refl

pub opts-bad : all unsafe_spelt unconfined_opts ≡ true
unfolding unsafe_spelt cut_option has_prefix text_beq
opts-bad = refl
