-- ===== src/Client/Listing/Expansion.antt =====
-- The expansion of records by their details, of core/crates/xero-client/src/lib.rs, never fails.
use xero_visma_v.Base.{
  ℕ, suc, ◌+◌, ◌*◌, ◌≤◌, ◌<◌, ◌≡◌, refl, ap, ◌∙◌, Option, none, some, List, [], ◌∷◌, ◌++◌, Text,
  append_assoc, append-nil, Result, ok, err, length, inl, inr, Option-cases, arith, and_then,
}
use xero_visma_v.Errors.{Error}
use xero_visma_v.Foreign.{Chrono, Json}
use xero_visma_v.Entity.{EntityType, id_field}
use xero_visma_v.Client.Http.{Network, World}
use xero_visma_v.Client.Request.Laws.{send_request-Settles}
use xero_visma_v.Client.Query.{ExtraQuery}
use xero_visma_v.Client.Fetch.{XeroApiClient, fetch_one_by_id}
use xero_visma_v.Client.Listing.{detail_or, expand_record, expand_records}

module _ (J : Json) (C : Chrono) (N : Network) (client : XeroApiClient) (token : Text)
    (cap : ℕ) where
  -- A step of the expansion: a record, one to six requests or none, and the permit given back.
  record Expands (most : ℕ) (w : World) {A : Type 0} (r : Option (Result Error A × World))
      : Type 0 where
    item : A
    last : World
    returned : r ≡ some (ok item, last)
    permit_back : last.limiter.in_flight ≡ w.limiter.in_flight
    few_sent : last.sent ≤ w.sent + most

  detail_or-Expands :
      (w : World) (r : J.Value) (x : Result Error (Option J.Value)) (v : World)
      (o : Option (Result Error (Option J.Value) × World))
      → o ≡ some (x, v)
      → v.limiter.in_flight ≡ w.limiter.in_flight
      → v.sent ≤ w.sent + 6
      → Expands 6 w (detail_or r o)
  detail_or-Expands w r (ok (some detail)) v o h back few = record {
    item = detail;
    last = v;
    returned = rw h refl;
    permit_back = back;
    few_sent = few;
  }
  detail_or-Expands w r (ok none) v o h back few = record {
    item = r;
    last = v;
    returned = rw h refl;
    permit_back = back;
    few_sent = few;
  }
  detail_or-Expands w r (err e) v o h back few = record {
    item = r;
    last = v;
    returned = rw h refl;
    permit_back = back;
    few_sent = few;
  }

  expand_record-Expands :
      (e : EntityType) (extra : ExtraQuery) (r : J.Value) (w : World)
      → w.limiter.in_flight < 6
      → Expands 6 w (expand_record J C N client token cap e extra r w)
  unfolding expand_record fetch_one_by_id
  expand_record-Expands e extra r w free =
      elim (Option-cases (and_then (J.get r (id_field e)) J.as_str)) [
        | inl nameless ↦
            rw (nameless, expand_record)
              (record {
                item = r;
                last = w;
                returned = refl;
                permit_back = refl;
                few_sent = omega arith;
              })
        | inr (id, named) ↦
            let s = send_request-Settles N _ _ w free in
            rw (named, expand_record)
              (detail_or-Expands w r s.result s.last _ s.ends s.permit_back s.few_sent)
      ]

  -- Where the limiter has a slot, the expansion of records returns, whatever the network
  -- replies to the requests for details: it returns one record for each, in at most six
  -- requests for each, and hands its permits back.
  pub expand_records-total :
      (e : EntityType) (extra : ExtraQuery) (rs expanded : List J.Value) (w : World)
      → w.limiter.in_flight < 6
      → (xs : List J.Value) × (v : World) × (expand_records J C N client token cap e extra rs
            expanded w
          ≡ some (ok (expanded ++ xs), v))
        × (length xs ≡ length rs)
        × (v.limiter.in_flight ≡ w.limiter.in_flight)
        × (v.sent ≤ w.sent + 6 * length rs)
  unfolding expand_records
  expand_records-total e extra [] expanded w free =
      ([], w, rw (append-nil expanded) refl, refl, refl, omega arith)
  expand_records-total e extra (r ∷ rs) expanded w free =
      let x = expand_record-Expands e extra r w free in
      let (xs, v, returned, many, back, few) =
        expand_records-total e extra rs (expanded ++ x.item ∷ []) x.last
          (omega (arith, x.permit_back)) in
      (
        x.item ∷ xs,
        v,
        rw x.returned
            (returned ∙ ap (λ ys. some (ok ys, v)) (append_assoc expanded (x.item ∷ []) xs)),
        ap suc many,
        back ∙ x.permit_back,
        omega (arith, x.few_sent),
      )
