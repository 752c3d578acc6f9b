-- ===== src/Api/MonitorRoutes/Accepted.antt =====
-- Which monitors are accepted, and what is kept of them.
use mathlib.Core.Bool.{true≢false}
use mathlib.Core.List.{reverse, reverse-reverse, reverse_perm}
use mathlib.Core.List.Perm
use mathlib.Core.Path.{subst}
use dnsmon.Base.{
  ℕ, zero, suc, ◌≡◌, ◌≢◌, refl, sym, ap, ◌∙◌, ◌⊎◌, inl, inr, ◌↔◌, List, [], ◌∷◌, none, Bool, true,
  false, Text, is_empty, text_eq, text_eq_iff, trim_space, trim_by, front_space, end_space,
  is_space, is_wide_space, is_wider_space, All, All-perm, arith, Bool-cases,
}
use dnsmon.Dns.RecordTypes.{is_supported}
use dnsmon.Settings.{Monitor, monitor_propagation, monitor_change}
use dnsmon.Checker.Request.{
  IsDomain, IsDomainByte, is_domain_byte, is_domain_byte_iff, matches_domain_iff,
}
use dnsmon.Api.MonitorRoutes.{
  MonitorRequest, clean_values, refused, name_of, created_monitor, updated_monitor,
}

-- What holds of the requests that are accepted.
pub record IsAcceptable (req : MonitorRequest) : Type 0 where
  pub kind : (req.type ≡ monitor_propagation) ⊎ (req.type ≡ monitor_change)
  pub domain : IsDomain req.fqdn
  pub supported : is_supported req.record_type ≡ true
  pub aims : (req.type ≢ monitor_propagation) ⊎ (clean_values req.expected ≢ [])

nonempty_iff : (s : Text) → (is_empty s ≡ false) ↔ (s ≢ [])
nonempty_iff [] = (λ e. cc, λ n. absurd (n refl))
nonempty_iff (c ∷ s) = (λ e n. cc, λ n. refl)

nonempty_list_iff : (s : List Text) → (is_empty s ≡ false) ↔ (s ≢ [])
nonempty_list_iff [] = (λ e. cc, λ n. absurd (n refl))
nonempty_list_iff (c ∷ s) = (λ e n. cc, λ n. refl)

pub refused-IsAcceptable :
    (complaint : MonitorRequest → Text) (req : MonitorRequest)
    → refused complaint req ≡ none
    → IsAcceptable req
unfolding refused
refused-IsAcceptable complaint req e =
    let p = text_eq_iff req.type monitor_propagation in
    let q = text_eq_iff req.type monitor_change in
    let d = matches_domain_iff req.fqdn in
    let either : (text_eq req.type monitor_propagation ≡ true)
        ⊎ (text_eq req.type monitor_change ≡ true) =
      ground arith in
    let aims : (text_eq req.type monitor_propagation ≡ false)
        ⊎ (is_empty (clean_values req.expected) ≡ false) =
      ground arith in
    record {
      kind = elim either [ inl h ↦ inl (p.0 h) | inr h ↦ inr (q.0 h) ];
      domain = d.0 (ground arith);
      supported = ground arith;
      aims = elim aims [
        | inl h ↦ inl (λ same. absurd (true≢false (sym (p.1 same) ∙ h)))
        | inr h ↦ inr ((nonempty_list_iff (clean_values req.expected)).0 h)
      ];
    }

front_space-byte : (c : ℕ) (s : Text) → IsDomainByte c → front_space (c ∷ s) ≡ 0
unfolding front_space is_space is_wide_space is_wider_space
front_space-byte c [] h = ground arith
front_space-byte c (d ∷ []) h = ground arith
front_space-byte c (d ∷ e ∷ s) h = ground arith

end_space-byte : (c : ℕ) (s : Text) → IsDomainByte c → end_space (c ∷ s) ≡ 0
unfolding end_space is_space is_wide_space is_wider_space
end_space-byte c [] h = ground arith
end_space-byte c (d ∷ []) h = ground arith
end_space-byte c (d ∷ e ∷ s) h = ground arith

trim_by-same :
    (width : Text → ℕ)
    → ((c : ℕ) (s : Text) → IsDomainByte c → width (c ∷ s) ≡ 0)
    → (s : Text) → All (λ c. is_domain_byte c ≡ true) s
    → trim_by width 0 s ≡ s
unfolding trim_by
trim_by-same width none_in [] h = refl
trim_by-same width none_in (c ∷ s) h =
    ap (λ n. elim n [ zero ↦ c ∷ s | suc k ↦ trim_by width k s ])
      (none_in c s ((is_domain_byte_iff c).0 h.0))

All-is_domain_byte : (s : Text) → All IsDomainByte s → All (λ c. is_domain_byte c ≡ true) s
All-is_domain_byte [] h = tt
All-is_domain_byte (c ∷ s) h = ((is_domain_byte_iff c).1 h.0, All-is_domain_byte s h.1)

trim_space-same : (s : Text) → All IsDomainByte s → trim_space s ≡ s
unfolding trim_space
trim_space-same s h =
    let plain = All-is_domain_byte s h in
    let back = All-perm _ (λ c. bool_set _ _) s (reverse s) (Perm.symm (reverse_perm s)) plain in
    ap (λ t. reverse (trim_by end_space 0 (reverse t)))
      (trim_by-same front_space front_space-byte s plain)
    ∙ ap reverse (trim_by-same end_space end_space-byte (reverse s) back)
    ∙ reverse-reverse s
  where
    bool_set : IsSet Bool
    bool_set = hlevel

clean_values-filled : (vs : List Text) → All (λ v. v ≢ []) (clean_values vs)
unfolding clean_values
clean_values-filled [] = tt
clean_values-filled (v ∷ vs) = elim (Bool-cases (is_empty (trim_space v))) [
  | inl e ↦ rw e (clean_values-filled vs)
  | inr e ↦ rw e ((nonempty_iff (trim_space v)).0 e, clean_values-filled vs)
]

-- A monitor with which the evaluation can work.
pub record IsSound (m : Monitor) : Type 0 where
  pub kind : (m.type ≡ monitor_propagation) ⊎ (m.type ≡ monitor_change)
  pub named : m.name ≢ []
  pub domain : IsDomain m.fqdn
  pub supported : is_supported m.record_type ≡ true
  pub aims : (m.type ≢ monitor_propagation) ⊎ (m.expected ≢ [])
  pub filled : All (λ v. v ≢ []) m.expected

name_of-filled : (req : MonitorRequest) → IsDomain req.fqdn → name_of req ≢ []
unfolding name_of
name_of-filled req d = elim (Bool-cases (is_empty (trim_space req.name))) [
  | inl e ↦ rw (e, trim_space-same req.fqdn d.1) d.0
  | inr e ↦ rw e ((nonempty_iff (trim_space req.name)).0 e)
]

pub created_monitor-IsSound :
    (req : MonitorRequest) (id : Text) (now : ℕ)
    → IsAcceptable req
    → IsSound (created_monitor req id now)
unfolding created_monitor
created_monitor-IsSound req id now a = record {
  kind = a.kind;
  named = name_of-filled req a.domain;
  domain = subst IsDomain (sym (trim_space-same req.fqdn a.domain.1)) a.domain;
  supported = a.supported;
  aims = a.aims;
  filled = clean_values-filled req.expected;
}

pub updated_monitor-IsSound :
    (req : MonitorRequest) (m : Monitor) (now : ℕ)
    → IsAcceptable req
    → IsSound (updated_monitor req m now)
unfolding updated_monitor
updated_monitor-IsSound req m now a = record {
  kind = a.kind;
  named = name_of-filled req a.domain;
  domain = subst IsDomain (sym (trim_space-same req.fqdn a.domain.1)) a.domain;
  supported = a.supported;
  aims = a.aims;
  filled = clean_values-filled req.expected;
}
