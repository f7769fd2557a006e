-- ===== src/Gcs/Meta/Laws.antt =====
-- What a reader finds in the metadata of an object.
use xero_visma_v.Base.{
  ◌≡◌, refl, true, Option, none, some, [], Text, codes, show, text_eq, if◌then◌else◌, arith,
}
use xero_visma_v.Base.BTree.{Pairs, insert, get, get-insert, is_sorted, insert-is_sorted}
use xero_visma_v.Gcs.Meta.{
  report_snapshot, sync_type_str, ObjectMeta, MetaArgs, ReportMetaArgs, BaseArgs, base_map,
  insert_if_some, metadata, report_metadata,
}

or_old : Option Text → Option Text → Option Text
or_old none old = old
or_old (some v) old = some v

or_old-none : (o : Option Text) → or_old o none ≡ o
unfolding or_old
or_old-none none = refl
or_old-none (some v) = refl

get-insert_if_some :
    (k j : Text) (o : Option Text) (m : Pairs)
    → get j (insert_if_some k o m) ≡ (if text_eq k j then or_old o (get j m) else get j m)
unfolding insert_if_some or_old
get-insert_if_some k j none m = ground arith
get-insert_if_some k j (some v) m = get-insert k j v m

get-nil : (k : Text) → get k [] ≡ none
unfolding get
get-nil k = refl

insert_if_some-is_sorted :
    (k : Text) (o : Option Text) (m : Pairs)
    → is_sorted m ≡ true
    → is_sorted (insert_if_some k o m) ≡ true
unfolding insert_if_some
insert_if_some-is_sorted k none m h = h
insert_if_some-is_sorted k (some v) m h = insert-is_sorted k v m h

base_map-is_sorted : (b : BaseArgs) → is_sorted (base_map b) ≡ true
unfolding base_map insert
base_map-is_sorted b = refl

ruleset entries = (get-insert, get-insert_if_some, or_old-none, get-nil)

-- The keys that every object carries.
pub record HasBase (b : BaseArgs) (m : ObjectMeta) : Type 0 where
  pub vendor : get (codes "x-vendor") m ≡ some (codes "xero")
  pub tenant_id : get (codes "x-tenant-id") m ≡ some b.tenant_id
  pub org_name : get (codes "x-org-name") m ≡ some b.org_name
  pub endpoint : get (codes "x-endpoint") m ≡ some b.endpoint
  pub api_version : get (codes "x-api-version") m ≡ some (codes "2.0")
  pub sync_type : get (codes "x-sync-type") m ≡ some (sync_type_str b.sync_type)
  pub record_count : get (codes "x-record-count") m ≡ some (show b.record_count)
  pub http_status : get (codes "x-http-status") m ≡ some (show b.http_status)
  pub run_id : get (codes "x-run-id") m ≡ some b.run_id
  pub synced_at : get (codes "x-synced-at") m ≡ some b.synced_at
  pub sorted : is_sorted m ≡ true

-- The metadata of a page: the shared keys, the page number, and each window or filter exactly if
-- there is one.
pub record IsPageMeta (args : MetaArgs) (m : ObjectMeta) : Type 0 where
  pub base :
      HasBase
        (record {
          tenant_id = args.tenant_id;
          org_name = args.org_name;
          endpoint = args.endpoint;
          sync_type = args.sync_type;
          http_status = args.http_status;
          record_count = args.record_count;
          run_id = args.run_id;
          synced_at = args.synced_at;
        })
        m
  pub page : get (codes "x-page") m ≡ some (show args.page)
  pub modified_after : get (codes "x-modified-after") m ≡ args.modified_after
  pub business_from : get (codes "x-business-from") m ≡ args.business_from
  pub business_to : get (codes "x-business-to") m ≡ args.business_to
  pub where_filter : get (codes "x-where") m ≡ args.where_filter

-- The metadata of a report: the shared keys, the report with its parameters, and its date or its
-- period exactly if it has one.
pub record IsReportMeta (args : ReportMetaArgs) (m : ObjectMeta) : Type 0 where
  pub base :
      HasBase
        (record {
          tenant_id = args.tenant_id;
          org_name = args.org_name;
          endpoint = args.endpoint;
          sync_type = report_snapshot;
          http_status = args.http_status;
          record_count = args.record_count;
          run_id = args.run_id;
          synced_at = args.synced_at;
        })
        m
  pub report : get (codes "x-report") m ≡ some args.report
  pub report_params : get (codes "x-report-params") m ≡ some args.report_params
  pub report_date : get (codes "x-report-date") m ≡ args.report_date
  pub report_from : get (codes "x-report-from") m ≡ args.report_from
  pub report_to : get (codes "x-report-to") m ≡ args.report_to
  pub no_page : get (codes "x-page") m ≡ none

-- `metadata` writes exactly the metadata of its page: the shared keys, the page number, and a
-- window or filter just when the arguments have one, in the order of the keys.
metadata-IsPageMeta : (args : MetaArgs) → IsPageMeta args (metadata args)
unfolding metadata base_map
metadata-IsPageMeta args = record {
  base = record {
    vendor = simp entries;
    tenant_id = simp entries;
    org_name = simp entries;
    endpoint = simp entries;
    api_version = simp entries;
    sync_type = simp entries;
    record_count = simp entries;
    http_status = simp entries;
    run_id = simp entries;
    synced_at = simp entries;
    sorted = search (insert_if_some-is_sorted, insert-is_sorted, base_map-is_sorted) depth 8;
  };
  page = simp entries;
  modified_after = simp entries;
  business_from = simp entries;
  business_to = simp entries;
  where_filter = simp entries;
}

-- `report_metadata` writes exactly the metadata of its report, with no page number.
report_metadata-IsReportMeta : (args : ReportMetaArgs) → IsReportMeta args (report_metadata args)
unfolding report_metadata base_map
report_metadata-IsReportMeta args = record {
  base = record {
    vendor = simp entries;
    tenant_id = simp entries;
    org_name = simp entries;
    endpoint = simp entries;
    api_version = simp entries;
    sync_type = simp entries;
    record_count = simp entries;
    http_status = simp entries;
    run_id = simp entries;
    synced_at = simp entries;
    sorted = search (insert_if_some-is_sorted, insert-is_sorted, base_map-is_sorted) depth 8;
  };
  report = simp entries;
  report_params = simp entries;
  report_date = simp entries;
  report_from = simp entries;
  report_to = simp entries;
  no_page = simp entries;
}
