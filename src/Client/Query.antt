-- ===== src/Client/Query.antt =====
-- The query parameters of core/crates/xero-client/src/lib.rs: what an entity supports, the extra
-- knobs of a call, and the parameters of reports.
pub mod Laws
use xero_visma_v.Base.{
  ℕ, zero, suc, Bool, true, false, not, ◌&&◌, ◌||◌, Option, none, some, List, [], ◌∷◌, ◌++◌, map,
  Text, codes, text_eq, text_leb, trim, any, is_nil, Result, ok, err, if◌then◌else◌,
}
use xero_visma_v.Base.BTree.{Pairs, insert}
use xero_visma_v.Errors.{Error, config}
use xero_visma_v.Entity.{EntityType, as_str}

pub record ExtraQuery : Type 0 where
  pub page_size : Option ℕ
  pub where_clause : Option Text
  pub order : Option Text
  pub ids : Option Text
  pub include_archived : Bool
  pub summary_only : Bool
  pub statuses : Option Text
  pub expand_lines : Bool
  pub extra : Pairs

-- `ExtraQuery::default()`
abbrev pub no_extras : ExtraQuery
no_extras = record {
  page_size = none;
  where_clause = none;
  order = none;
  ids = none;
  include_archived = false;
  summary_only = false;
  statuses = none;
  expand_lines = false;
  extra = [];
}

pub data BusinessDateQueryMode : Type 0 where
  by_where : Text → BusinessDateQueryMode
  date_from_to : BusinessDateQueryMode
  local_only : Text → BusinessDateQueryMode

unfoldable pub business_date_query_mode : EntityType → Option BusinessDateQueryMode
business_date_query_mode EntityType.batch_payments = some (by_where (codes "Date"))
business_date_query_mode EntityType.bills = some (by_where (codes "Date"))
business_date_query_mode EntityType.bank_transactions = some (by_where (codes "Date"))
business_date_query_mode EntityType.bank_transfers = some (by_where (codes "Date"))
business_date_query_mode EntityType.credit_notes = some (by_where (codes "Date"))
business_date_query_mode EntityType.invoices = some (by_where (codes "Date"))
business_date_query_mode EntityType.manual_journals = some (by_where (codes "Date"))
business_date_query_mode EntityType.overpayments = some (by_where (codes "Date"))
business_date_query_mode EntityType.payments = some (by_where (codes "Date"))
business_date_query_mode EntityType.prepayments = some (by_where (codes "Date"))
business_date_query_mode EntityType.receipts = some (by_where (codes "Date"))
business_date_query_mode EntityType.purchase_orders = some date_from_to
business_date_query_mode EntityType.quotes = some date_from_to
business_date_query_mode EntityType.journals = some (local_only (codes "JournalDate"))
business_date_query_mode _ = none

unfoldable pub supports_page_pagination : EntityType → Bool
supports_page_pagination EntityType.bank_transactions = true
supports_page_pagination EntityType.bills = true
supports_page_pagination EntityType.contacts = true
supports_page_pagination EntityType.credit_notes = true
supports_page_pagination EntityType.invoices = true
supports_page_pagination EntityType.linked_transactions = true
supports_page_pagination EntityType.manual_journals = true
supports_page_pagination EntityType.overpayments = true
supports_page_pagination EntityType.payments = true
supports_page_pagination EntityType.prepayments = true
supports_page_pagination EntityType.purchase_orders = true
supports_page_pagination EntityType.quotes = true
supports_page_pagination _ = false

unfoldable pub supports_page_size : EntityType → Bool
supports_page_size EntityType.bank_transactions = true
supports_page_size EntityType.bills = true
supports_page_size EntityType.contacts = true
supports_page_size EntityType.credit_notes = true
supports_page_size EntityType.invoices = true
supports_page_size EntityType.manual_journals = true
supports_page_size EntityType.overpayments = true
supports_page_size EntityType.payments = true
supports_page_size EntityType.prepayments = true
supports_page_size EntityType.purchase_orders = true
supports_page_size _ = false

unfoldable pub is_bills : EntityType → Bool
is_bills EntityType.bills = true
is_bills _ = false

-- `.map(str::trim).filter(|w| !w.is_empty())`
unfoldable pub trimmed : Option Text → Option Text
trimmed none = none
trimmed (some w) = let t = trim w in if is_nil t then none else some t

unfoldable pub bill_where_clause : Option Text → Text
unfolding trimmed
bill_where_clause user = elim (trimmed user) [
  | some w ↦ codes "Type==\"ACCPAY\" && (" ++ w ++ codes ")"
  | none ↦ codes "Type==\"ACCPAY\""
]

unfoldable pub takes_archived : EntityType → Bool
takes_archived EntityType.bills = true
takes_archived EntityType.contacts = true
takes_archived EntityType.invoices = true
takes_archived EntityType.tracking_categories = true
takes_archived _ = false

unfoldable pub takes_summary : EntityType → Bool
takes_summary EntityType.bills = true
takes_summary EntityType.contacts = true
takes_summary EntityType.invoices = true
takes_summary _ = false

unfoldable pub statuses_key : EntityType → Text
statuses_key EntityType.purchase_orders = codes "Status"
statuses_key EntityType.quotes = codes "Status"
statuses_key _ = codes "Statuses"

-- `if let Some(v) = value { out.push((key, v)) }`
unfoldable pub pair_if_some : Text → Option Text → Pairs
pair_if_some key none = []
pair_if_some key (some v) = (key, v) ∷ []

unfoldable pub flag_if : Bool → Text → Pairs
flag_if on key = if on then (key, codes "true") ∷ [] else []

unfoldable pub where_pairs : ExtraQuery → EntityType → Pairs
unfolding is_bills bill_where_clause trimmed pair_if_some
where_pairs extra e =
    if is_bills e
    then (codes "where", bill_where_clause extra.where_clause) ∷ []
    else pair_if_some (codes "where") (trimmed extra.where_clause)

unfoldable pub extra_query_pairs : ExtraQuery → EntityType → Pairs
unfolding where_pairs takes_archived takes_summary statuses_key pair_if_some flag_if
extra_query_pairs extra e =
    where_pairs extra e
    ++ pair_if_some (codes "order") extra.order
    ++ pair_if_some (codes "IDs") extra.ids
    ++ flag_if (extra.include_archived && takes_archived e) (codes "includeArchived")
    ++ flag_if (extra.summary_only && takes_summary e) (codes "summaryOnly")
    ++ pair_if_some (statuses_key e) extra.statuses
    ++ extra.extra

-- The defaults of a report, `today` being the date of the call.
unfoldable pub default_report_params : EntityType → Text → Pairs
default_report_params EntityType.report_profit_and_loss today =
    (codes "fromDate", today) ∷ (codes "toDate", today) ∷ []
default_report_params EntityType.report_bank_summary today =
    (codes "fromDate", today) ∷ (codes "toDate", today) ∷ []
default_report_params EntityType.report_balance_sheet today = (codes "date", today) ∷ []
default_report_params EntityType.report_trial_balance today = (codes "date", today) ∷ []
default_report_params EntityType.report_aged_receivables_by_contact today =
    (codes "date", today) ∷ []
default_report_params EntityType.report_aged_payables_by_contact today = (codes "date", today) ∷ []
default_report_params EntityType.report_executive_summary today = (codes "date", today) ∷ []
default_report_params EntityType.report_budget_summary today =
    (codes "date", today) ∷ (codes "periods", codes "3") ∷ (codes "timeframe", codes "1") ∷ []
default_report_params _ today = []

unfoldable pub insert_all : Pairs → Pairs → Pairs
unfolding insert
insert_all [] m = m
insert_all ((k, v) ∷ rest) m = insert_all rest (insert k v m)

unfoldable pub resolve_report_params : EntityType → Text → Pairs → Pairs
unfolding insert_all default_report_params
resolve_report_params e today overrides =
    insert_all overrides (insert_all (default_report_params e today) [])

unfoldable pub needs_contact : EntityType → Bool
needs_contact EntityType.report_aged_receivables_by_contact = true
needs_contact EntityType.report_aged_payables_by_contact = true
needs_contact _ = false

unfoldable pub validate_report_params : EntityType → Pairs → Result Error (Unit {0})
unfolding needs_contact
validate_report_params e params =
    if needs_contact e
      && not (any (λ (k, v). text_eq k (codes "contactId") && not (is_nil (trim v))) params)
    then err (config (as_str e ++ codes " requires extra_params contactId=<xero-contact-uuid>"))
    else ok tt
