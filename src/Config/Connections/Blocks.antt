-- ===== src/Config/Connections/Blocks.antt =====
-- The blocks of variables that the environment has: when one is set, and what it gives. These do
-- not use the functions that core/crates/xero-common/src/config.rs reads them with.
use xero_visma_v.Base.{
  ℕ, ◌<◌, ◌≡◌, refl, Bool, true, false, not, Option, none, some, List, [], ◌∷◌, Text, codes, show,
  Result, ok, err, All, All-weaken, any, arith, Bool-cases, inl, inr, ◌⊎◌, is_none,
}
use xero_visma_v.Base.BTree.{Pairs}
use xero_visma_v.Errors.{Error}
use xero_visma_v.Config.{value}
use xero_visma_v.Config.Connections.{
  XeroCustomConnectionConfig, block_of, connection_of, explicit_label, explicit_custom_connection,
  org_label, numbered_custom_connection, numbered_org_indices, is_org_suffix, u16_end, has_tenant,
}
use xero_visma_v.Config.Connections.Numbers.{
  Holds, InRange, connection_of-Holds, value-get, index_of_key-show, among-numbered_org_indices,
  All-among,
}
use xero_visma_v.Config.Connections.Laws.{HasDistinctTenants, IsListed, IsFrom, IsConnectionsOf}

abbrev pub suffixes : Text → List Text
suffixes name = codes "CLIENT_ID" ∷ codes "CLIENT_SECRET" ∷ codes "TENANT_ID" ∷ name ∷ []

-- Some variable of the block has a value.
abbrev pub is_set : Pairs → (Text → Text) → Text → Bool
is_set vars label name = any (λ suffix. not (is_none (value vars (label suffix)))) (suffixes name)

-- The connection has the values of the block, all but its name being there.
abbrev pub IsGiven : Pairs → (Text → Text) → Text → XeroCustomConnectionConfig → Type 0
IsGiven vars label name c =
    Holds (value vars (label (codes "CLIENT_ID"))) (value vars (label (codes "CLIENT_SECRET")))
      (value vars (label (codes "TENANT_ID"))) (value vars (label name)) c

-- By `XERO_CC_*`, and by `XERO_ORG_N_*`.
abbrev pub IsExplicit : Pairs → XeroCustomConnectionConfig → Type 0
IsExplicit vars = IsGiven vars explicit_label (codes "TENANT_NAME")

abbrev pub IsNumbered : Pairs → Text → XeroCustomConnectionConfig → Type 0
IsNumbered vars index = IsGiven vars (org_label index) (codes "NAME")

-- The block's connection is complete, and its tenant is among those of the list.
abbrev pub IsComplete : Pairs → (Text → Text) → Text → List XeroCustomConnectionConfig → Type 0
IsComplete vars label name cs =
    (c : XeroCustomConnectionConfig) × IsGiven vars label name c
    × (has_tenant c.tenant_id cs ≡ true)

pub record AreOfBlocks (vars : Pairs) (cs : List XeroCustomConnectionConfig) : Type 0 where
  pub distinct : HasDistinctTenants cs
  pub from : All (λ c. IsExplicit vars c ⊎ ((n : ℕ) × InRange n × IsNumbered vars (show n) c)) cs
  pub explicit_there :
      is_set vars explicit_label (codes "TENANT_NAME") ≡ true
      → IsComplete vars explicit_label (codes "TENANT_NAME") cs
  pub numbered_there :
      (n : ℕ)
      → 0 < n
      → n < u16_end
      → is_set vars (org_label (show n)) (codes "NAME") ≡ true
      → IsComplete vars (org_label (show n)) (codes "NAME") cs

block_of-none :
    (label : Text → Text) (i s t n : Option Text)
    → block_of label i s t n ≡ ok none
    → any (λ v. not (is_none v)) (i ∷ s ∷ t ∷ n ∷ []) ≡ false
unfolding block_of
block_of-none label none none none none h = refl
block_of-none label none none none (some n) h = cc h
block_of-none label none none (some t) n h = cc h
block_of-none label none (some s) none n h = cc h
block_of-none label none (some s) (some t) n h = cc h
block_of-none label (some i) none none n h = cc h
block_of-none label (some i) none (some t) n h = cc h
block_of-none label (some i) (some s) none n h = cc h
block_of-none label (some i) (some s) (some t) n h = cc h

-- A block that is read as absent has no variable set.
pub connection_of-none :
    (label : Text → Text) (name : Text) (vars : Pairs)
    → connection_of label name vars ≡ ok none
    → is_set vars label name ≡ false
unfolding connection_of
connection_of-none label name vars h = block_of-none label _ _ _ _ h

-- A block that is read as a connection has a variable set.
pub IsGiven-is_set :
    (vars : Pairs) (label : Text → Text) (name : Text) (c : XeroCustomConnectionConfig)
    → IsGiven vars label name c
    → is_set vars label name ≡ true
IsGiven-is_set vars label name c h = rw h.client refl

listed-IsComplete :
    (vars : Pairs) (label : Text → Text) (name : Text) (cs : List XeroCustomConnectionConfig)
    (r : Result Error (Option XeroCustomConnectionConfig))
    → connection_of label name vars ≡ r
    → IsListed cs r
    → is_set vars label name ≡ true
    → IsComplete vars label name cs
listed-IsComplete vars label name cs (err e) read h set = absurd h
listed-IsComplete vars label name cs (ok none) read h set =
    cc (connection_of-none label name vars read, set)
listed-IsComplete vars label name cs (ok (some c)) read h set =
    (c, connection_of-Holds label name vars c read, h)

any-All {ℓ κ} :
    {A : Type ℓ} (Q : A → Type κ) (p : A → Bool) (xs : List A)
    → any p xs ≡ true
    → All Q xs
    → (x : A) × (p x ≡ true) × Q x
any-All Q p [] h all = cc h
any-All Q p (x ∷ xs) h all = elim (Bool-cases (p x)) [
  | inl found ↦ (x, found, all.0)
  | inr other ↦ any-All Q p xs (ground (arith, h, other)) all.1
]

set-value : (o : Option Text) → not (is_none o) ≡ true → (v : Text) × (o ≡ some v)
set-value none h = cc h
set-value (some v) h = (v, refl)

-- A number of which a variable is set is among those that are read.
is_set-IsListed :
    (vars : Pairs) (cs : List XeroCustomConnectionConfig) (n : ℕ)
    → 0 < n
    → n < u16_end
    → IsConnectionsOf vars cs
    → is_set vars (org_label (show n)) (codes "NAME") ≡ true
    → IsListed cs (numbered_custom_connection vars (show n))
unfolding is_org_suffix
is_set-IsListed vars cs n positive fits listed set =
    let (suffix, here, known) =
      any-All (λ s. is_org_suffix s ≡ true) (λ s. not (is_none (value vars (org_label (show n) s))))
        (suffixes (codes "NAME")) set (refl, (refl, (refl, (refl, tt)))) in
    let key = org_label (show n) suffix in
    let (v, has) = set-value (value vars key) here in
    let (raw, got) = value-get vars key v has in
    All-among (λ m. IsListed cs (numbered_custom_connection vars (show m))) n
      (numbered_org_indices vars) listed.numbered_there
      (among-numbered_org_indices vars key raw n got
        (index_of_key-show n suffix positive fits known))

IsFrom-given :
    (vars : Pairs) (c : XeroCustomConnectionConfig)
    → IsFrom vars c
    → IsExplicit vars c ⊎ ((n : ℕ) × InRange n × IsNumbered vars (show n) c)
unfolding explicit_custom_connection numbered_custom_connection
IsFrom-given vars c (inl read) = inl (connection_of-Holds explicit_label _ vars c read)
IsFrom-given vars c (inr (n, range, read)) =
    inr (n, range, connection_of-Holds (org_label (show n)) _ vars c read)

pub connections-AreOfBlocks :
    (vars : Pairs) (cs : List XeroCustomConnectionConfig)
    → IsConnectionsOf vars cs
    → AreOfBlocks vars cs
unfolding explicit_custom_connection numbered_custom_connection
connections-AreOfBlocks vars cs h = record {
  distinct = h.distinct;
  from = All-weaken (IsFrom vars) _ (IsFrom-given vars) cs h.from;
  explicit_there =
      listed-IsComplete vars explicit_label (codes "TENANT_NAME") cs _ refl h.explicit_there;
  numbered_there = λ n positive fits set.
      listed-IsComplete vars (org_label (show n)) (codes "NAME") cs _ refl
        (is_set-IsListed vars cs n positive fits h set) set;
}
