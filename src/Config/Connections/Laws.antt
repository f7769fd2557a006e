-- ===== src/Config/Connections/Laws.antt =====
-- The list of connections: one for each tenant, each as its block in the environment gives it.
use xero_visma_v.Base.{
  ℕ, ◌≡◌, refl, true, false, Option, none, some, List, [], ◌∷◌, ◌++◌, Text, text_eq, text_eq_iff,
  show, Result, ok, err, Result-cases, All, All-append, any-append, arith, Bool-cases, ◌⊎◌, inl,
  inr,
}
use xero_visma_v.Base.BTree.{Pairs}
use xero_visma_v.Errors.{Error}
use xero_visma_v.Config.Connections.Numbers.{InRange, numbered_org_indices-InRange}
use xero_visma_v.Config.Connections.{
  XeroCustomConnectionConfig, explicit_custom_connection, numbered_custom_connection,
  numbered_org_indices, has_tenant, push_new, push_numbered, to_list, custom_connection_configs,
}

abbrev pub HasDistinctTenants : List XeroCustomConnectionConfig → Type 0
HasDistinctTenants [] = Unit
HasDistinctTenants (c ∷ cs) = (has_tenant c.tenant_id cs ≡ false) × HasDistinctTenants cs

-- A block of the environment is absent, or is a connection whose tenant is listed.
abbrev pub IsListed :
    List XeroCustomConnectionConfig → Result Error (Option XeroCustomConnectionConfig) → Type 0
IsListed cs (err e) = ⊥
IsListed cs (ok none) = Unit
IsListed cs (ok (some c)) = has_tenant c.tenant_id cs ≡ true

-- A connection is the one of a block.
abbrev pub IsFrom : Pairs → XeroCustomConnectionConfig → Type 0
IsFrom vars c =
    (explicit_custom_connection vars ≡ ok (some c))
    ⊎ ((n : ℕ) × InRange n × (numbered_custom_connection vars (show n) ≡ ok (some c)))

pub record IsConnectionsOf (vars : Pairs) (cs : List XeroCustomConnectionConfig) : Type 0 where
  pub distinct : HasDistinctTenants cs
  pub from : All (IsFrom vars) cs
  pub explicit_there : IsListed cs (explicit_custom_connection vars)
  pub numbered_there :
      All (λ n. IsListed cs (numbered_custom_connection vars (show n))) (numbered_org_indices vars)

snoc-HasDistinctTenants :
    (c : XeroCustomConnectionConfig) (cs : List XeroCustomConnectionConfig)
    → HasDistinctTenants cs
    → has_tenant c.tenant_id cs ≡ false
    → HasDistinctTenants (cs ++ c ∷ [])
unfolding has_tenant
snoc-HasDistinctTenants c [] d fresh = (refl, tt)
snoc-HasDistinctTenants c (x ∷ xs) d fresh = (
  ground (
    arith,
    d.0,
    any-append (λ e. text_eq e.tenant_id x.tenant_id) xs (c ∷ []),
    text_eq_iff x.tenant_id c.tenant_id,
    text_eq_iff c.tenant_id x.tenant_id,
  ),
  snoc-HasDistinctTenants c xs d.1 (ground (arith, fresh)),
)

push_new-HasDistinctTenants :
    (o : Option XeroCustomConnectionConfig) (cs : List XeroCustomConnectionConfig)
    → HasDistinctTenants cs
    → HasDistinctTenants (push_new o cs)
unfolding push_new
push_new-HasDistinctTenants none cs d = d
push_new-HasDistinctTenants (some c) cs d = elim (Bool-cases (has_tenant c.tenant_id cs)) [
  | inl known ↦ rw known d
  | inr fresh ↦ rw fresh (snoc-HasDistinctTenants c cs d fresh)
]

push_new-keeps :
    (t : Text) (o : Option XeroCustomConnectionConfig) (cs : List XeroCustomConnectionConfig)
    → has_tenant t cs ≡ true
    → has_tenant t (push_new o cs) ≡ true
unfolding push_new has_tenant
push_new-keeps t none cs h = h
push_new-keeps t (some c) cs h = ground (arith, any-append (λ e. text_eq e.tenant_id t) cs (c ∷ []))

push_new-IsListed :
    (o : Option XeroCustomConnectionConfig) (cs : List XeroCustomConnectionConfig)
    → IsListed (push_new o cs) (ok o)
unfolding push_new has_tenant
push_new-IsListed none cs = tt
push_new-IsListed (some c) cs = ground (
  arith,
  any-append (λ e. text_eq e.tenant_id c.tenant_id) cs (c ∷ []),
  text_eq_iff c.tenant_id c.tenant_id,
)

push_new-IsFrom :
    (vars : Pairs) (n : ℕ) (o : Option XeroCustomConnectionConfig)
    (cs : List XeroCustomConnectionConfig)
    → InRange n
    → numbered_custom_connection vars (show n) ≡ ok o
    → All (IsFrom vars) cs
    → All (IsFrom vars) (push_new o cs)
unfolding push_new
push_new-IsFrom vars n none cs range h f = f
push_new-IsFrom vars n (some c) cs range h f = elim (Bool-cases (has_tenant c.tenant_id cs)) [
  | inl known ↦ rw known f
  | inr fresh ↦ rw fresh (All-append (IsFrom vars) cs (c ∷ []) f (inr (n, range, h), tt))
]

-- What the loop over the numbers makes of the list so far.
record Pushed (vars : Pairs) (ns : List ℕ) (cs ds : List XeroCustomConnectionConfig) : Type 0 where
  distinct : HasDistinctTenants ds
  from : All (IsFrom vars) ds
  keeps : (t : Text) → has_tenant t cs ≡ true → has_tenant t ds ≡ true
  there : All (λ n. IsListed ds (numbered_custom_connection vars (show n))) ns

IsListed-keeps :
    (cs ds : List XeroCustomConnectionConfig) (r : Result Error (Option XeroCustomConnectionConfig))
    → ((t : Text) → has_tenant t cs ≡ true → has_tenant t ds ≡ true)
    → IsListed cs r
    → IsListed ds r
IsListed-keeps cs ds (err e) keeps h = h
IsListed-keeps cs ds (ok none) keeps h = h
IsListed-keeps cs ds (ok (some c)) keeps h = keeps c.tenant_id h

push_numbered-Pushed :
    (vars : Pairs) (ns : List ℕ) (cs ds : List XeroCustomConnectionConfig)
    → HasDistinctTenants cs
    → All (IsFrom vars) cs
    → All InRange ns
    → push_numbered vars ns cs ≡ ok ds
    → Pushed vars ns cs ds
unfolding push_numbered
push_numbered-Pushed vars [] cs ds d f ranges h =
    let e : cs ≡ ds = cc h in
    rw (← e) (record { distinct = d; from = f; keeps = λ t known. known; there = tt })
push_numbered-Pushed vars (n ∷ ns) cs ds d f ranges h =
    elim (Result-cases (numbered_custom_connection vars (show n))) [
      | inr (e, failed) ↦ cc (rw failed at h)
      | inl (o, found) ↦
          let later =
            push_numbered-Pushed vars ns (push_new o cs) ds (push_new-HasDistinctTenants o cs d)
              (push_new-IsFrom vars n o cs ranges.0 found f) ranges.1 (rw found at h) in
          record {
            distinct = later.distinct;
            from = later.from;
            keeps = λ t known. later.keeps t (push_new-keeps t o cs known);
            there = (
              rw found
                  (IsListed-keeps (push_new o cs) ds (ok o) later.keeps (push_new-IsListed o cs)),
              later.there,
            );
          }
    ]

to_list-IsFrom :
    (vars : Pairs) (o : Option XeroCustomConnectionConfig)
    → explicit_custom_connection vars ≡ ok o
    → All (IsFrom vars) (to_list o)
to_list-IsFrom vars none h = tt
to_list-IsFrom vars (some c) h = (inl h, tt)

to_list-HasDistinctTenants :
    (o : Option XeroCustomConnectionConfig) → HasDistinctTenants (to_list o)
unfolding has_tenant
to_list-HasDistinctTenants none = tt
to_list-HasDistinctTenants (some c) = (refl, tt)

to_list-IsListed : (o : Option XeroCustomConnectionConfig) → IsListed (to_list o) (ok o)
unfolding has_tenant
to_list-IsListed none = tt
to_list-IsListed (some c) = ground (arith, text_eq_iff c.tenant_id c.tenant_id)

configs_of :
    (vars : Pairs) (cs : List XeroCustomConnectionConfig) (o : Option XeroCustomConnectionConfig)
    → explicit_custom_connection vars ≡ ok o
    → push_numbered vars (numbered_org_indices vars) (to_list o) ≡ ok cs
    → IsConnectionsOf vars cs
configs_of vars cs o found h =
    let all =
      push_numbered-Pushed vars (numbered_org_indices vars) (to_list o) cs
        (to_list-HasDistinctTenants o) (to_list-IsFrom vars o found)
        (numbered_org_indices-InRange vars) h in
    record {
      distinct = all.distinct;
      from = all.from;
      explicit_there =
          rw found (IsListed-keeps (to_list o) cs (ok o) all.keeps (to_list-IsListed o));
      numbered_there = all.there;
    }

-- Where the connections can be read: no two of them have the same tenant, each is the one of its
-- block, and each complete block, under `XERO_CC_*` or under a number that some variable names,
-- has its tenant among them; none of these blocks is incomplete.
pub custom_connection_configs-IsConnectionsOf :
    (vars : Pairs) (cs : List XeroCustomConnectionConfig)
    → custom_connection_configs vars ≡ ok cs
    → IsConnectionsOf vars cs
unfolding custom_connection_configs
custom_connection_configs-IsConnectionsOf vars cs h =
    elim (Result-cases (explicit_custom_connection vars)) [
      | inr (e, failed) ↦ cc (rw failed at h)
      | inl (o, found) ↦ configs_of vars cs o found (rw found at h)
    ]
