-- ===== src/Client/Query/Laws.antt =====
-- What the tables of types.rs and of the client agree on, and what the parameters come to.
use xero_visma_v.Base.{
  ◌≡◌, refl, ◌∙◌, ap, Bool, true, false, not, ◌&&◌, Option, none, some, [], ◌∷◌, Text, text_eq,
  if◌then◌else◌, arith,
}
use xero_visma_v.Base.BTree.{Pairs, insert, get, get-insert, is_sorted, insert-is_sorted}
use xero_visma_v.Entity.{EntityType, is_report, is_date_windowable}
use xero_visma_v.Client.Query.{
  BusinessDateQueryMode, by_where, date_from_to, local_only, business_date_query_mode,
  supports_page_pagination, supports_page_size, default_report_params, insert_all,
  resolve_report_params,
}

abbrev pub is_server_side : Option BusinessDateQueryMode → Bool
is_server_side (some (by_where f)) = true
is_server_side (some date_from_to) = true
is_server_side (some (local_only f)) = false
is_server_side none = false

-- types.rs calls an entity date-windowable exactly when the client can ask the server for a range
-- of business dates; a page size is sent to paged endpoints alone; and no report is paged.
query_tables :
    (e : EntityType)
    → (is_date_windowable e ≡ is_server_side (business_date_query_mode e))
      × ((supports_page_size e && not (supports_page_pagination e)) ≡ false)
      × ((supports_page_pagination e && is_report e) ≡ false)
unfolding is_date_windowable business_date_query_mode supports_page_pagination supports_page_size
    is_report
query_tables EntityType.accounts = ground arith
query_tables _ = ground arith

-- The last value that a list gives a key.
pub last_value : Text → Pairs → Option Text → Option Text
last_value k [] old = old
last_value k ((j, v) ∷ rest) old = last_value k rest (if text_eq j k then some v else old)

get-insert_all : (k : Text) (new m : Pairs) → get k (insert_all new m) ≡ last_value k new (get k m)
unfolding insert_all last_value
get-insert_all k [] m = refl
get-insert_all k ((j, v) ∷ new) m =
    get-insert_all k new (insert j v m) ∙ ap (last_value k new) (get-insert j k v m)

insert_all-is_sorted : (new m : Pairs) → is_sorted m ≡ true → is_sorted (insert_all new m) ≡ true
unfolding insert_all
insert_all-is_sorted [] m h = h
insert_all-is_sorted ((k, v) ∷ new) m h =
    insert_all-is_sorted new (insert k v m) (insert-is_sorted k v m h)

-- A report parameter is the caller's last value for it, or else the report's default, and the
-- parameters come in the order of their names, each once.
resolve_report_params_lem :
    (e : EntityType) (today k : Text) (overrides : Pairs)
    → (get k (resolve_report_params e today overrides)
        ≡ last_value k overrides (last_value k (default_report_params e today) none))
      × (is_sorted (resolve_report_params e today overrides) ≡ true)
unfolding resolve_report_params get
resolve_report_params_lem e today k overrides = (
  get-insert_all k overrides (insert_all (default_report_params e today) [])
      ∙ ap (last_value k overrides) (get-insert_all k (default_report_params e today) []),
  insert_all-is_sorted overrides (insert_all (default_report_params e today) [])
      (insert_all-is_sorted (default_report_params e today) [] refl),
)
