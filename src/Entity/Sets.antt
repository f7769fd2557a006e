-- ===== src/Entity/Sets.antt =====
-- How the sets of types.rs relate: what a full sync, a master sync and the reports cover.
use xero_visma_v.Base.{◌≡◌, refl, Bool, true, false, not, ◌&&◌, arith, length}
use xero_visma_v.Entity.{
  EntityType, is_report, is_date_windowable, all, all_reports, reports_default, master_data,
  open_status, contains, is_master,
}

-- The entities that no default list of a run holds: bills come with invoices, and employees are
-- payroll data.
unfoldable pub is_unlisted : EntityType → Bool
is_unlisted EntityType.bills = true
is_unlisted EntityType.employees = true
is_unlisted _ = false

-- How the lists and the predicates agree on an entity.
pub record IsClassified (e : EntityType) : Type 0 where
  pub listed : contains all e ≡ (not (is_report e) && not (is_unlisted e))
  pub reported : contains all_reports e ≡ is_report e
  pub by_default : (contains reports_default e && not (is_report e)) ≡ false
  pub master_listed : (is_master e && not (contains all e)) ≡ false
  pub master_undated : (is_master e && is_date_windowable e) ≡ false
  pub dated_no_report : (is_date_windowable e && is_report e) ≡ false
  pub open_dated : (contains open_status e && not (is_date_windowable e)) ≡ false

-- Every entity is classified alike by its lists and its predicates: `all` holds just those that are
-- neither reports nor bills nor employees, `all_reports` just the reports, the default reports are
-- reports, and master data are listed and take no date window.
classify : (e : EntityType) → IsClassified e
unfolding is_master is_report is_date_windowable all all_reports reports_default master_data
    open_status contains is_unlisted
classify EntityType.accounts = ground arith
classify _ = ground arith

pub list_sizes : (length all ≡ 28) × (length all_reports ≡ 8) × (length reports_default ≡ 6)
unfolding all all_reports reports_default
list_sizes = (refl, refl, refl)
