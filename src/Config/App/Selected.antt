-- ===== src/Config/App/Selected.antt =====
-- The selected connection is one of those that the process authenticates, and each of them keeps
-- its own credentials in the clients of core/crates/xero-auth.
use xero_visma_v.Base.{
  ℕ, ◌<◌, ◌≡◌, refl, ◌∙◌, true, false, Option, none, some, List, [], ◌∷◌, Text, codes, show,
  text_eq, text_eq_iff, ok, Result-cases, All, arith, inl, inr, if◌then◌else◌,
}
use xero_visma_v.Base.BTree.{Pairs}
use xero_visma_v.Config.Connections.{
  XeroCustomConnectionConfig, u16_end, org_label, explicit_custom_connection,
  numbered_custom_connection, numbered_org_indices, has_tenant, is_org_suffix,
  selected_custom_connection,
}
use xero_visma_v.Config.Connections.Numbers.{
  connection_of-Holds, value-get, index_of_key-show, among-numbered_org_indices, All-among,
}
use xero_visma_v.Config.Connections.Laws.{HasDistinctTenants, IsListed, IsConnectionsOf}
use xero_visma_v.Config.App.{custom_connection_org_index, AppConfig, app_config}
use xero_visma_v.Config.App.Laws.{app_config-Steps}
use xero_visma_v.Auth.{
  CustomConnectionClient, new_client, insert_client, collect_clients, new_clients,
}

numbered-IsListed :
    (vars : Pairs) (cs : List XeroCustomConnectionConfig) (n : ℕ) (c : XeroCustomConnectionConfig)
    → 0 < n
    → n < u16_end
    → IsConnectionsOf vars cs
    → numbered_custom_connection vars (show n) ≡ ok (some c)
    → has_tenant c.tenant_id cs ≡ true
unfolding numbered_custom_connection is_org_suffix
numbered-IsListed vars cs n c positive fits listed found =
    let h = connection_of-Holds (org_label (show n)) (codes "NAME") vars c found in
    let key = org_label (show n) (codes "TENANT_ID") in
    let (raw, set) = value-get vars key c.tenant_id h.tenant in
    let index = index_of_key-show n (codes "TENANT_ID") positive fits refl in
    rw found at (
      All-among (λ m. IsListed cs (numbered_custom_connection vars (show m))) n
        (numbered_org_indices vars) listed.numbered_there
        (among-numbered_org_indices vars key raw n set index))

selected-IsListed :
    (vars : Pairs) (cs : List XeroCustomConnectionConfig) (n : ℕ) (c : XeroCustomConnectionConfig)
    → 0 < n
    → n < u16_end
    → IsConnectionsOf vars cs
    → selected_custom_connection vars (show n) ≡ ok (some c)
    → has_tenant c.tenant_id cs ≡ true
unfolding selected_custom_connection
selected-IsListed vars cs n c positive fits listed chosen =
    elim (Result-cases (explicit_custom_connection vars)) [
      | inr (e, failed) ↦ cc (rw failed at chosen)
      | inl (none, absent) ↦
          numbered-IsListed vars cs n c positive fits listed (rw absent at chosen)
      | inl (some d, there) ↦
          let same : d ≡ c = cc (rw there at chosen) in
          rw (← same) (rw there at listed.explicit_there)
    ]

-- In an accepted configuration whose organisation number is written in its shortest decimal form,
-- the selected tenant is one of those that the process has a connection for.
pub app_config-has_tenant :
    (vars : Pairs) (a : AppConfig) (n : ℕ)
    → app_config vars ≡ ok a
    → custom_connection_org_index vars ≡ ok (show n)
    → 0 < n
    → n < u16_end
    → (t : Text) × (a.xero_cc_tenant_id ≡ some t) × (has_tenant t a.xero_cc_connections ≡ true)
app_config-has_tenant vars a n h index positive fits =
    let r = app_config-Steps vars a h in
    let same : r.org_index ≡ show n = cc (r.indexed, index) in
    (
      r.selected.tenant_id,
      r.fields.tenant,
      selected-IsListed vars a.xero_cc_connections n r.selected positive fits r.listed
          (rw same at r.chosen),
    )

-- `clients.get(tenant_id)`
abbrev pub client_at : Text → List (Text × CustomConnectionClient) → Option CustomConnectionClient
client_at t [] = none
client_at t ((k, c) ∷ rest) = if text_eq k t then some c else client_at t rest

client_at-insert :
    (t k : Text) (c : CustomConnectionClient) (cs : List (Text × CustomConnectionClient))
    → client_at t (insert_client k c cs) ≡ (if text_eq k t then some c else client_at t cs)
unfolding insert_client
client_at-insert t k c [] = refl
client_at-insert t k c ((j, d) ∷ cs) =
    ground (arith, client_at-insert t k c cs, text_eq_iff j k, text_eq_iff j t, text_eq_iff k t)

collect-other :
    (t : Text) (ks : List XeroCustomConnectionConfig) (cs : List (Text × CustomConnectionClient))
    → has_tenant t ks ≡ false
    → client_at t (collect_clients ks cs) ≡ client_at t cs
unfolding collect_clients has_tenant
collect-other t [] cs h = refl
collect-other t (k ∷ ks) cs h =
    collect-other t ks (insert_client k.tenant_id (new_client k) cs) (ground (arith, h))
    ∙ client_at-insert t k.tenant_id (new_client k) cs
    ∙ ground (arith, h)

-- A connection has its own client.
abbrev pub HasClient : List (Text × CustomConnectionClient) → XeroCustomConnectionConfig → Type 0
HasClient cs k = client_at k.tenant_id cs ≡ some (new_client k)

collect-HasClient :
    (ks : List XeroCustomConnectionConfig) (cs : List (Text × CustomConnectionClient))
    → HasDistinctTenants ks
    → All (HasClient (collect_clients ks cs)) ks
unfolding collect_clients
collect-HasClient [] cs d = tt
collect-HasClient (k ∷ ks) cs d = (
  collect-other k.tenant_id ks (insert_client k.tenant_id (new_client k) cs) d.0
      ∙ client_at-insert k.tenant_id k.tenant_id (new_client k) cs
      ∙ ground (arith, text_eq_iff k.tenant_id k.tenant_id),
  collect-HasClient ks (insert_client k.tenant_id (new_client k) cs) d.1,
)

-- For every connection of an accepted configuration, the multi-tenant client holds under its
-- tenant a client with the credentials of that connection and no token yet: none is overwritten by
-- another's.
pub app_config-new_clients :
    (vars : Pairs) (a : AppConfig)
    → app_config vars ≡ ok a
    → All (HasClient (new_clients a.xero_cc_connections)) a.xero_cc_connections
unfolding new_clients
app_config-new_clients vars a h =
    collect-HasClient a.xero_cc_connections [] (app_config-Steps vars a h).listed.distinct
