-- ===== src/Gcs/Meta.antt =====
-- core/crates/xero-gcs/src/meta.rs: the custom metadata of an object.
pub mod Laws
use xero_visma_v.Base.{ℕ, Option, none, some, [], ◌∷◌, Text, codes, show}
use xero_visma_v.Base.BTree.{Pairs, insert}

pub data SyncType : Type 0 where
  incremental open_sweep rolling_full master backfill report_snapshot : SyncType

unfoldable pub sync_type_str : SyncType → Text
sync_type_str incremental = codes "incremental"
sync_type_str open_sweep = codes "open-sweep"
sync_type_str rolling_full = codes "rolling-full"
sync_type_str master = codes "master"
sync_type_str backfill = codes "backfill"
sync_type_str report_snapshot = codes "report-snapshot"

-- `BTreeMap<String, String>`
abbrev pub ObjectMeta : Type 0
ObjectMeta = Pairs

pub record MetaArgs : Type 0 where
  pub tenant_id : Text
  pub org_name : Text
  pub endpoint : Text
  pub sync_type : SyncType
  pub modified_after : Option Text
  pub business_from : Option Text
  pub business_to : Option Text
  pub where_filter : Option Text
  pub page : ℕ
  pub record_count : ℕ
  pub http_status : ℕ
  pub run_id : Text
  pub synced_at : Text

pub record ReportMetaArgs : Type 0 where
  pub tenant_id : Text
  pub org_name : Text
  pub endpoint : Text
  pub report : Text
  pub report_date : Option Text
  pub report_from : Option Text
  pub report_to : Option Text
  pub report_params : Text
  pub http_status : ℕ
  pub record_count : ℕ
  pub run_id : Text
  pub synced_at : Text

pub record BaseArgs : Type 0 where
  pub tenant_id : Text
  pub org_name : Text
  pub endpoint : Text
  pub sync_type : SyncType
  pub http_status : ℕ
  pub record_count : ℕ
  pub run_id : Text
  pub synced_at : Text

unfoldable pub base_map : BaseArgs → Pairs
base_map b =
    let m0 : Pairs = insert (codes "x-vendor") (codes "xero") [] in
    let m1 = insert (codes "x-tenant-id") b.tenant_id m0 in
    let m2 = insert (codes "x-org-name") b.org_name m1 in
    let m3 = insert (codes "x-endpoint") b.endpoint m2 in
    let m4 = insert (codes "x-api-version") (codes "2.0") m3 in
    let m5 = insert (codes "x-sync-type") (sync_type_str b.sync_type) m4 in
    let m6 = insert (codes "x-record-count") (show b.record_count) m5 in
    let m7 = insert (codes "x-http-status") (show b.http_status) m6 in
    let m8 = insert (codes "x-run-id") b.run_id m7 in insert (codes "x-synced-at") b.synced_at m8

-- `if let Some(v) = value { m.insert(key, v) }`
unfoldable pub insert_if_some : Text → Option Text → Pairs → Pairs
unfolding insert
insert_if_some k none m = m
insert_if_some k (some v) m = insert k v m

unfoldable pub metadata : MetaArgs → ObjectMeta
metadata args =
    let m = base_map (record {
      tenant_id = args.tenant_id;
      org_name = args.org_name;
      endpoint = args.endpoint;
      sync_type = args.sync_type;
      http_status = args.http_status;
      record_count = args.record_count;
      run_id = args.run_id;
      synced_at = args.synced_at;
    }) in
    let m0 = insert (codes "x-page") (show args.page) m in
    let m1 = insert_if_some (codes "x-modified-after") args.modified_after m0 in
    let m2 = insert_if_some (codes "x-business-from") args.business_from m1 in
    let m3 = insert_if_some (codes "x-business-to") args.business_to m2 in
    insert_if_some (codes "x-where") args.where_filter m3

unfoldable pub report_metadata : ReportMetaArgs → ObjectMeta
report_metadata args =
    let m = base_map (record {
      tenant_id = args.tenant_id;
      org_name = args.org_name;
      endpoint = args.endpoint;
      sync_type = report_snapshot;
      http_status = args.http_status;
      record_count = args.record_count;
      run_id = args.run_id;
      synced_at = args.synced_at;
    }) in
    let m0 = insert (codes "x-report") args.report m in
    let m1 = insert_if_some (codes "x-report-date") args.report_date m0 in
    let m2 = insert_if_some (codes "x-report-from") args.report_from m1 in
    let m3 = insert_if_some (codes "x-report-to") args.report_to m2 in
    insert (codes "x-report-params") args.report_params m3
