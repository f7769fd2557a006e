-- ===== src/Gcs/Keys/Laws.antt =====
-- Keys name their objects: pages of a run never overwrite each other, sidecars or manifests.
use xero_visma_v.Base.{
  ℕ, suc, ◌≡◌, refl, sym, ap, ◌∙◌, ◌≢◌, ◌≤◌, ◌⊎◌, [], ◌∷◌, ◌++◌, append_assoc, append-nil, subst,
  Text, codes, length, All, All-weaken, append_cancel_left, split_unique, is_ascii_alphanumeric,
  to_ascii_lowercase, show_padded, read, read-show_padded, IsDigit, show_padded-IsDigit, arith,
}
use mathlib.Core.List.{append_cancel_right}
use xero_visma_v.Foreign.{Chrono}
use xero_visma_v.Foreign.Laws.{HasIso}
use xero_visma_v.Entity.{EntityType, as_str}
use xero_visma_v.Entity.Spelling.{as_str_injective}
use xero_visma_v.Gcs.Keys.{sanitize_char, sanitize_segment, api_version, sidecar_key, object_key}

-- A lower-case letter, a digit or an underscore.
abbrev pub IsSafe : ℕ → Type 0
IsSafe c = ((b'a' ≤ c) × (c ≤ b'z')) ⊎ (((b'0' ≤ c) × (c ≤ b'9')) ⊎ (c ≡ b'_'))

sanitize_char-IsSafe : (c : ℕ) → IsSafe (sanitize_char c)
unfolding sanitize_char is_ascii_alphanumeric to_ascii_lowercase
sanitize_char-IsSafe c = ground arith

sanitize_char_idem : (c : ℕ) → sanitize_char (sanitize_char c) ≡ sanitize_char c
unfolding sanitize_char is_ascii_alphanumeric to_ascii_lowercase
sanitize_char_idem c = ground arith

-- A sanitized segment has only lower-case letters, digits and underscores, so no slash; it is as
-- long as the text, and sanitizing it again changes nothing.
pub sanitize_segment_lem :
    (s : Text)
    → All IsSafe (sanitize_segment s)
      × (length (sanitize_segment s) ≡ length s)
      × (sanitize_segment (sanitize_segment s) ≡ sanitize_segment s)
unfolding sanitize_segment
sanitize_segment_lem [] = (tt, refl, refl)
sanitize_segment_lem (c ∷ s) =
    let (safe, long, idem) = sanitize_segment_lem s in
    ((sanitize_char-IsSafe c, safe), ap suc long, cc (sanitize_char_idem c, idem))

sanitize_segment-as_str : (e : EntityType) → sanitize_segment (as_str e) ≡ as_str e
unfolding sanitize_segment as_str
sanitize_segment-as_str EntityType.accounts = refl
sanitize_segment-as_str _ = refl

slash_free : (s : Text) → All (λ c. c ≢ b'/') (sanitize_segment s)
slash_free s =
    All-weaken IsSafe (λ c. c ≢ b'/') (λ c h. ground arith) (sanitize_segment s)
      (sanitize_segment_lem s).0

digits_dot_free : (n : ℕ) → All (λ c. c ≢ b'.') (show_padded n)
digits_dot_free n =
    All-weaken IsDigit (λ c. c ≢ b'.') (λ c h. omega arith) (show_padded n) (show_padded-IsDigit n)

show_padded_injective : (p q : ℕ) → show_padded p ≡ show_padded q → p ≡ q
show_padded_injective p q h = sym (read-show_padded p) ∙ ap (read 0) h ∙ read-show_padded q

module _ (C : Chrono) (L : HasIso C) (prefix tenant ts run_id : Text) where
  abbrev front : Text
  front = prefix ++ codes "/" ++ tenant ++ codes "/" ++ api_version ++ codes "/"

  abbrev stem : Text
  stem = ts ++ codes "_" ++ sanitize_segment run_id ++ codes "_p"

  -- What follows the endpoint.
  abbrev back : C.Date → ℕ → Text → Text
  back d p end = C.iso d ++ (b'/' ∷ (stem ++ (show_padded p ++ (b'.' ∷ (codes "json" ++ end)))))

  shape :
      (a : EntityType) (d : C.Date) (p : ℕ) (end : Text)
      → object_key C prefix tenant (as_str a) d ts run_id p ++ end
        ≡ front ++ (as_str a ++ (b'/' ∷ back d p end))
  unfolding object_key
  shape a d p end = rw (sanitize_segment-as_str a) (simp append_assoc)

  -- Two keys of a run, the second with some ending, agree in endpoint, date and page number.
  same_parts :
      (a b : EntityType) (d e : C.Date) (p q : ℕ) (end other : Text)
      → object_key C prefix tenant (as_str a) d ts run_id p ++ end
        ≡ object_key C prefix tenant (as_str b) e ts run_id q ++ other
      → (a ≡ b) × (d ≡ e) × (p ≡ q) × (end ≡ other)
  same_parts a b d e p q end other h =
      let whole = append_cancel_left front (sym (shape a d p end) ∙ h ∙ shape b e q other) in
      let free : (x : EntityType) → All (λ c. c ≢ b'/') (as_str x) =
        λ x. subst (All (λ c. c ≢ b'/')) (sanitize_segment-as_str x) (slash_free (as_str x)) in
      let (same_endpoint, after) =
        split_unique b'/' (as_str a) (as_str b) _ _ (free a) (free b) whole in
      let (same_date, file) =
        split_unique b'/' (C.iso d) (C.iso e) _ _ (L.iso_slash_free d) (L.iso_slash_free e) after in
      let (same_digits, ending) =
        split_unique b'.' (show_padded p) (show_padded q) _ _ (digits_dot_free p)
          (digits_dot_free q) (append_cancel_left stem file) in
      (
        as_str_injective a b same_endpoint,
        L.iso_injective d e same_date,
        show_padded_injective p q same_digits,
        append_cancel_left (codes "json") ending,
      )

  -- The keys of one prefix, tenant, run and timestamp are distinct, for a calendar whose dates are
  -- printed apart and without a slash: equal keys mean the same entity, the same date folder and
  -- the same page.
  pub object_key_injective :
      (a b : EntityType) (d e : C.Date) (p q : ℕ)
      → object_key C prefix tenant (as_str a) d ts run_id p
        ≡ object_key C prefix tenant (as_str b) e ts run_id q
      → (a ≡ b) × (d ≡ e) × (p ≡ q)
  object_key_injective a b d e p q h =
      let r = same_parts a b d e p q [] [] (append-nil _ ∙ h ∙ sym (append-nil _)) in
      (r.0, r.1, r.2)

  -- For such a calendar, no sidecar of a page has the key of a page of the same prefix, tenant,
  -- run and timestamp.
  pub sidecar_key-ne :
      (a b : EntityType) (d e : C.Date) (p q : ℕ)
      → sidecar_key (object_key C prefix tenant (as_str a) d ts run_id p)
        ≢ object_key C prefix tenant (as_str b) e ts run_id q
  unfolding sidecar_key
  sidecar_key-ne a b d e p q h =
      let r = same_parts a b d e p q (codes ".meta.json") [] (h ∙ sym (append-nil _)) in cc r.3

-- Different keys have different sidecars.
pub sidecar_key_injective : (k l : Text) → sidecar_key k ≡ sidecar_key l → k ≡ l
unfolding sidecar_key
sidecar_key_injective k l h = append_cancel_right k l (codes ".meta.json") h
