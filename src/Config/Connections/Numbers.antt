-- ===== src/Config/Connections/Numbers.antt =====
-- The variables of a block: a connection holds their values, and its number is found by their
-- names.
use xero_visma_v.Base.{
  ℕ, ◌<◌, ◌≡◌, refl, ap, ◌∙◌, and_then, strip_prefix, split_once, ◌≢◌, Bool, true, ◌||◌, Option,
  none, some, List, [], ◌∷◌, ◌++◌, Text, codes, show, show-IsDigit, IsDigit, parse_unsigned-show,
  parse_unsigned_below, ltb, ok, All, All-weaken, any, ◌==◌, ==_iff, arith, Bool-cases,
  Option-cases, inl, inr, text_eq, text_eq_iff,
}
use xero_visma_v.Base.BTree.{Pairs, get}
use xero_visma_v.Config.{value, present}
use xero_visma_v.Config.Connections.{
  XeroCustomConnectionConfig, block_of, connection_of, is_org_suffix, u16_end, above_zero,
  index_of_parts, index_of_key, insert_index, insert_some, numbered_org_indices, org_label,
}

-- A connection holds the values of its block.
pub record Holds (client_id client_secret tenant_id tenant_name : Option Text)
    (c : XeroCustomConnectionConfig) : Type 0 where
  pub client : client_id ≡ some c.client_id
  pub secret : client_secret ≡ some c.client_secret
  pub tenant : tenant_id ≡ some c.tenant_id
  pub name : tenant_name ≡ c.tenant_name

block_of-Holds :
    (label : Text → Text) (i s t n : Option Text) (c : XeroCustomConnectionConfig)
    → block_of label i s t n ≡ ok (some c)
    → Holds i s t n c
unfolding block_of
block_of-Holds label (some i) (some s) (some t) n c h = record {
  client = cc h;
  secret = cc h;
  tenant = cc h;
  name = cc h;
}
block_of-Holds label (some i) (some s) none n c h = cc h
block_of-Holds label (some i) none (some t) n c h = cc h
block_of-Holds label (some i) none none n c h = cc h
block_of-Holds label none (some s) (some t) n c h = cc h
block_of-Holds label none (some s) none n c h = cc h
block_of-Holds label none none (some t) n c h = cc h
block_of-Holds label none none none none c h = cc h
block_of-Holds label none none none (some n) c h = cc h

pub connection_of-Holds :
    (label : Text → Text) (name : Text) (vars : Pairs) (c : XeroCustomConnectionConfig)
    → connection_of label name vars ≡ ok (some c)
    → Holds
        (value vars (label (codes "CLIENT_ID")))
        (value vars (label (codes "CLIENT_SECRET")))
        (value vars (label (codes "TENANT_ID")))
        (value vars (label name))
        c
unfolding connection_of
connection_of-Holds label name vars c h = block_of-Holds label _ _ _ _ c h

pub value-get :
    (vars : Pairs) (key v : Text)
    → value vars key ≡ some v
    → (raw : Text) × (get key vars ≡ some raw)
unfolding value present
value-get vars key v h = elim (Option-cases (get key vars)) [
  | inl unset ↦ cc (rw unset at h)
  | inr found ↦ found
]

strip_prefix-append : (t s : Text) → strip_prefix t (t ++ s) ≡ some s
strip_prefix-append [] s = refl
strip_prefix-append (c ∷ t) s = ground (arith, strip_prefix-append t s)

split_once-append :
    (d : ℕ) (a s : Text) → All (λ c. c ≢ d) a → split_once d (a ++ d ∷ s) ≡ some (a, s)
split_once-append d [] s h = ground arith
split_once-append d (c ∷ a) s h = ground (arith, h.0, split_once-append d a s h.1)

pub index_of_key-show :
    (n : ℕ) (suffix : Text)
    → 0 < n
    → n < u16_end
    → is_org_suffix suffix ≡ true
    → index_of_key (org_label (show n) suffix) ≡ some n
unfolding index_of_key
index_of_key-show n suffix positive fits known =
    let no_bar =
      All-weaken IsDigit (λ c. c ≢ b'_') (λ c h. omega arith) (show n) (show-IsDigit n) in
    ap (λ o. above_zero (and_then o λ rest. and_then (split_once b'_' rest) index_of_parts))
      (strip_prefix-append (codes "XERO_ORG_") (show n ++ b'_' ∷ suffix))
    ∙ ap (λ o. above_zero (and_then o index_of_parts))
        (split_once-append b'_' (show n) suffix no_bar)
    ∙ rw (known, parse_unsigned-show u16_end n fits, index_of_parts) (ground arith)

abbrev pub among : ℕ → List ℕ → Bool
among n ns = any (λ m. m == n) ns

among-insert : (n m : ℕ) (ns : List ℕ) → among n (insert_index m ns) ≡ ((m == n) || among n ns)
unfolding insert_index
among-insert n m [] = refl
among-insert n m (k ∷ ks) = ground (arith, among-insert n m ks)

among-insert_some :
    (n : ℕ) (o : Option ℕ) (ns : List ℕ) → among n ns ≡ true → among n (insert_some o ns) ≡ true
among-insert_some n none ns h = h
among-insert_some n (some m) ns h = ground (arith, among-insert n m ns)

pub among-numbered_org_indices :
    (vars : Pairs) (key raw : Text) (n : ℕ)
    → get key vars ≡ some raw
    → index_of_key key ≡ some n
    → among n (numbered_org_indices vars) ≡ true
unfolding numbered_org_indices get
among-numbered_org_indices [] key raw n found index = cc found
among-numbered_org_indices ((k, v) ∷ vars) key raw n found index =
    elim (Bool-cases (text_eq k key)) [
      | inl same ↦
          rw ((text_eq_iff k key).0 same, index)
            (ground (arith, among-insert n n (numbered_org_indices vars)))
      | inr other ↦
          among-insert_some n (index_of_key k) (numbered_org_indices vars)
            (among-numbered_org_indices vars key raw n (rw other at found) index)
    ]

pub All-among {ℓ} : (P : ℕ → Type ℓ) (n : ℕ) (ns : List ℕ) → All P ns → among n ns ≡ true → P n
All-among P n [] all h = cc h
All-among P n (m ∷ ns) all h = elim (Bool-cases (m == n)) [
  | inl same ↦ rw (← (==_iff m n).0 same) all.0
  | inr other ↦ All-among P n ns all.1 (ground (arith, h))
]

-- A number that an organisation may have.
abbrev pub InRange : ℕ → Type 0
InRange n = (0 < n) × (n < u16_end)

above_zero-InRange :
    (o : Option ℕ) (n : ℕ)
    → ((m : ℕ) → o ≡ some m → m < u16_end)
    → above_zero o ≡ some n
    → InRange n
above_zero-InRange none n below h = cc h
above_zero-InRange (some m) n below h = elim (Bool-cases (ltb 0 m)) [
  | inl positive ↦
      let same : m ≡ n = cc (rw positive at h) in
      rw (← same) (ground (arith, positive), below m refl)
  | inr nought ↦ cc (rw nought at h)
]

index_of_key-InRange : (key : Text) (n : ℕ) → index_of_key key ≡ some n → InRange n
unfolding index_of_key index_of_parts
index_of_key-InRange key n = above_zero-InRange _ n (in_key (strip_prefix (codes "XERO_ORG_") key))
  where
    in_parts : (p : Text × Text) (m : ℕ) → index_of_parts p ≡ some m → m < u16_end
    in_parts (index, suffix) m h = elim (Bool-cases (is_org_suffix suffix)) [
      | inl known ↦ parse_unsigned_below u16_end index m (omega arith) (rw known at h)
      | inr other ↦ cc (rw other at h)
    ]

    in_split : (o : Option (Text × Text)) (m : ℕ) → and_then o index_of_parts ≡ some m → m < u16_end
    in_split none m h = cc h
    in_split (some p) m h = in_parts p m h

    in_key :
        (o : Option Text) (m : ℕ)
        → and_then o (λ rest. and_then (split_once b'_' rest) index_of_parts) ≡ some m
        → m < u16_end
    in_key none m h = cc h
    in_key (some rest) m h = in_split (split_once b'_' rest) m h

insert_index-InRange :
    (n : ℕ) (ns : List ℕ) → InRange n → All InRange ns → All InRange (insert_index n ns)
unfolding insert_index
insert_index-InRange n [] h all = (h, tt)
insert_index-InRange n (m ∷ ms) h all =
    let later = insert_index-InRange n ms h all.1 in
    elim (Bool-cases (n == m)) [
      | inl same ↦ rw same all
      | inr other ↦ elim (Bool-cases (ltb n m)) [
        | inl before ↦ rw (other, before) (h, all)
        | inr after ↦ rw (other, after) (all.0, later)
      ]
    ]

insert_some-InRange :
    (o : Option ℕ) (ns : List ℕ)
    → ((n : ℕ) → o ≡ some n → InRange n)
    → All InRange ns
    → All InRange (insert_some o ns)
insert_some-InRange none ns h all = all
insert_some-InRange (some n) ns h all = insert_index-InRange n ns (h n refl) all

pub numbered_org_indices-InRange : (vars : Pairs) → All InRange (numbered_org_indices vars)
unfolding numbered_org_indices
numbered_org_indices-InRange [] = tt
numbered_org_indices-InRange ((key, v) ∷ vars) =
    insert_some-InRange (index_of_key key) (numbered_org_indices vars) (index_of_key-InRange key)
      (numbered_org_indices-InRange vars)
