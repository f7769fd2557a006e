-- ===== src/Entity.antt =====
-- core/crates/xero-common/src/types.rs: the entities that the service can fetch, their spellings,
-- and the sets that a run iterates over. A `&'static [EntityType]` is a list.
pub mod Equality
pub mod Spelling
pub mod Sets
use xero_visma_v.Base.{
  ℕ, ◌++◌, List, [], ◌∷◌, Bool, true, false, not, Text, codes, Result, ok, err, ◌==◌, text_eq, any,
  if◌then◌else◌,
}
use xero_visma_v.Errors.{Error, config}

pub data EntityType : Type 0 where
  accounts journals manual_journals tax_rates tracking_categories contacts invoices : EntityType
  credit_notes quotes payments repeating_invoices bills purchase_orders receipts : EntityType
  expense_claims batch_payments linked_transactions bank_transactions : EntityType
  bank_transfers items prepayments overpayments employees currencies organisations : EntityType
  branding_themes contact_groups budgets payment_services users : EntityType
  report_profit_and_loss report_balance_sheet report_trial_balance : EntityType
  report_aged_receivables_by_contact report_aged_payables_by_contact : EntityType
  report_bank_summary report_budget_summary report_executive_summary : EntityType

-- The API path segment. Bills are invoices of another type.
unfoldable pub xero_path : EntityType → Text
xero_path accounts = codes "Accounts"
xero_path journals = codes "Journals"
xero_path manual_journals = codes "ManualJournals"
xero_path tax_rates = codes "TaxRates"
xero_path tracking_categories = codes "TrackingCategories"
xero_path contacts = codes "Contacts"
xero_path invoices = codes "Invoices"
xero_path credit_notes = codes "CreditNotes"
xero_path quotes = codes "Quotes"
xero_path payments = codes "Payments"
xero_path repeating_invoices = codes "RepeatingInvoices"
xero_path bills = codes "Invoices"
xero_path purchase_orders = codes "PurchaseOrders"
xero_path receipts = codes "Receipts"
xero_path expense_claims = codes "ExpenseClaims"
xero_path batch_payments = codes "BatchPayments"
xero_path linked_transactions = codes "LinkedTransactions"
xero_path bank_transactions = codes "BankTransactions"
xero_path bank_transfers = codes "BankTransfers"
xero_path items = codes "Items"
xero_path prepayments = codes "Prepayments"
xero_path overpayments = codes "Overpayments"
xero_path employees = codes "Employees"
xero_path currencies = codes "Currencies"
xero_path organisations = codes "Organisation"
xero_path branding_themes = codes "BrandingThemes"
xero_path contact_groups = codes "ContactGroups"
xero_path budgets = codes "Budgets"
xero_path payment_services = codes "PaymentServices"
xero_path users = codes "Users"
xero_path report_profit_and_loss = codes "Reports/ProfitAndLoss"
xero_path report_balance_sheet = codes "Reports/BalanceSheet"
xero_path report_trial_balance = codes "Reports/TrialBalance"
xero_path report_aged_receivables_by_contact = codes "Reports/AgedReceivablesByContact"
xero_path report_aged_payables_by_contact = codes "Reports/AgedPayablesByContact"
xero_path report_bank_summary = codes "Reports/BankSummary"
xero_path report_budget_summary = codes "Reports/BudgetSummary"
xero_path report_executive_summary = codes "Reports/ExecutiveSummary"

-- The snake_case key; also `Display`.
unfoldable pub as_str : EntityType → Text
as_str accounts = codes "accounts"
as_str journals = codes "journals"
as_str manual_journals = codes "manual_journals"
as_str tax_rates = codes "tax_rates"
as_str tracking_categories = codes "tracking_categories"
as_str contacts = codes "contacts"
as_str invoices = codes "invoices"
as_str credit_notes = codes "credit_notes"
as_str quotes = codes "quotes"
as_str payments = codes "payments"
as_str repeating_invoices = codes "repeating_invoices"
as_str bills = codes "bills"
as_str purchase_orders = codes "purchase_orders"
as_str receipts = codes "receipts"
as_str expense_claims = codes "expense_claims"
as_str batch_payments = codes "batch_payments"
as_str linked_transactions = codes "linked_transactions"
as_str bank_transactions = codes "bank_transactions"
as_str bank_transfers = codes "bank_transfers"
as_str items = codes "items"
as_str prepayments = codes "prepayments"
as_str overpayments = codes "overpayments"
as_str employees = codes "employees"
as_str currencies = codes "currencies"
as_str organisations = codes "organisations"
as_str branding_themes = codes "branding_themes"
as_str contact_groups = codes "contact_groups"
as_str budgets = codes "budgets"
as_str payment_services = codes "payment_services"
as_str users = codes "users"
as_str report_profit_and_loss = codes "report_profit_and_loss"
as_str report_balance_sheet = codes "report_balance_sheet"
as_str report_trial_balance = codes "report_trial_balance"
as_str report_aged_receivables_by_contact = codes "report_aged_receivables_by_contact"
as_str report_aged_payables_by_contact = codes "report_aged_payables_by_contact"
as_str report_bank_summary = codes "report_bank_summary"
as_str report_budget_summary = codes "report_budget_summary"
as_str report_executive_summary = codes "report_executive_summary"

-- The field that identifies a record.
unfoldable pub id_field : EntityType → Text
id_field accounts = codes "AccountID"
id_field journals = codes "JournalID"
id_field manual_journals = codes "ManualJournalID"
id_field tax_rates = codes "TaxType"
id_field tracking_categories = codes "TrackingCategoryID"
id_field contacts = codes "ContactID"
id_field invoices = codes "InvoiceID"
id_field credit_notes = codes "CreditNoteID"
id_field quotes = codes "QuoteID"
id_field payments = codes "PaymentID"
id_field repeating_invoices = codes "RepeatingInvoiceID"
id_field bills = codes "InvoiceID"
id_field purchase_orders = codes "PurchaseOrderID"
id_field receipts = codes "ReceiptID"
id_field expense_claims = codes "ExpenseClaimID"
id_field batch_payments = codes "BatchPaymentID"
id_field linked_transactions = codes "LinkedTransactionID"
id_field bank_transactions = codes "BankTransactionID"
id_field bank_transfers = codes "BankTransferID"
id_field items = codes "ItemID"
id_field prepayments = codes "PrepaymentID"
id_field overpayments = codes "OverpaymentID"
id_field employees = codes "EmployeeID"
id_field currencies = codes "CurrencyCode"
id_field organisations = codes "OrganisationID"
id_field branding_themes = codes "BrandingThemeID"
id_field contact_groups = codes "ContactGroupID"
id_field budgets = codes "BudgetID"
id_field payment_services = codes "PaymentServiceID"
id_field users = codes "UserID"
id_field _ = codes "ReportID"

unfoldable pub is_report : EntityType → Bool
is_report report_profit_and_loss = true
is_report report_balance_sheet = true
is_report report_trial_balance = true
is_report report_aged_receivables_by_contact = true
is_report report_aged_payables_by_contact = true
is_report report_bank_summary = true
is_report report_budget_summary = true
is_report report_executive_summary = true
is_report _ = false

-- Whether the entity takes a `Date` filter.
unfoldable pub is_date_windowable : EntityType → Bool
is_date_windowable invoices = true
is_date_windowable bills = true
is_date_windowable credit_notes = true
is_date_windowable quotes = true
is_date_windowable payments = true
is_date_windowable overpayments = true
is_date_windowable prepayments = true
is_date_windowable bank_transactions = true
is_date_windowable bank_transfers = true
is_date_windowable manual_journals = true
is_date_windowable purchase_orders = true
is_date_windowable receipts = true
is_date_windowable batch_payments = true
is_date_windowable _ = false

unfoldable pub all_reports : List EntityType
all_reports =
    report_profit_and_loss ∷ report_balance_sheet ∷ report_trial_balance
    ∷ report_aged_receivables_by_contact ∷ report_aged_payables_by_contact ∷ report_bank_summary
    ∷ report_budget_summary ∷ report_executive_summary ∷ []

unfoldable pub reports_default : List EntityType
reports_default =
    report_profit_and_loss ∷ report_balance_sheet ∷ report_trial_balance ∷ report_bank_summary
    ∷ report_budget_summary ∷ report_executive_summary ∷ []

unfoldable pub all : List EntityType
all =
    accounts ∷ bank_transactions ∷ bank_transfers ∷ batch_payments ∷ branding_themes ∷ budgets
    ∷ contact_groups ∷ contacts ∷ credit_notes ∷ currencies ∷ expense_claims ∷ invoices ∷ items
    ∷ journals ∷ linked_transactions ∷ manual_journals ∷ organisations ∷ overpayments ∷ payments
    ∷ payment_services ∷ prepayments ∷ purchase_orders ∷ quotes ∷ receipts ∷ repeating_invoices
    ∷ tax_rates ∷ tracking_categories ∷ users ∷ []

unfoldable pub master_data : List EntityType
master_data =
    accounts ∷ contacts ∷ items ∷ tax_rates ∷ tracking_categories ∷ currencies ∷ organisations
    ∷ users ∷ branding_themes ∷ []

unfoldable pub open_status : List EntityType
open_status = invoices ∷ bills ∷ []

-- The position of the variant, which the derived `PartialEq` compares.
unfoldable pub discriminant : EntityType → ℕ
discriminant accounts = 0
discriminant journals = 1
discriminant manual_journals = 2
discriminant tax_rates = 3
discriminant tracking_categories = 4
discriminant contacts = 5
discriminant invoices = 6
discriminant credit_notes = 7
discriminant quotes = 8
discriminant payments = 9
discriminant repeating_invoices = 10
discriminant bills = 11
discriminant purchase_orders = 12
discriminant receipts = 13
discriminant expense_claims = 14
discriminant batch_payments = 15
discriminant linked_transactions = 16
discriminant bank_transactions = 17
discriminant bank_transfers = 18
discriminant items = 19
discriminant prepayments = 20
discriminant overpayments = 21
discriminant employees = 22
discriminant currencies = 23
discriminant organisations = 24
discriminant branding_themes = 25
discriminant contact_groups = 26
discriminant budgets = 27
discriminant payment_services = 28
discriminant users = 29
discriminant report_profit_and_loss = 30
discriminant report_balance_sheet = 31
discriminant report_trial_balance = 32
discriminant report_aged_receivables_by_contact = 33
discriminant report_aged_payables_by_contact = 34
discriminant report_bank_summary = 35
discriminant report_budget_summary = 36
discriminant report_executive_summary = 37

-- The derived `==`, and `contains` of a slice.
unfoldable pub entity_eq : EntityType → EntityType → Bool
unfolding discriminant
entity_eq a b = discriminant a == discriminant b

unfoldable pub contains : List EntityType → EntityType → Bool
unfolding entity_eq
contains es e = any (λ x. entity_eq x e) es

unfoldable pub is_master : EntityType → Bool
unfolding contains master_data
is_master e = contains master_data e

-- The arms of `from_str`, in order.
unfoldable pub arms : List (Text × EntityType)
arms =
    (codes "accounts", accounts)
    ∷ (codes "bank_transactions", bank_transactions)
    ∷ (codes "bank_transfers", bank_transfers)
    ∷ (codes "batch_payments", batch_payments)
    ∷ (codes "bills", bills)
    ∷ (codes "branding_themes", branding_themes)
    ∷ (codes "budgets", budgets)
    ∷ (codes "contact_groups", contact_groups)
    ∷ (codes "contacts", contacts)
    ∷ (codes "credit_notes", credit_notes)
    ∷ (codes "currencies", currencies)
    ∷ (codes "employees", employees)
    ∷ (codes "expense_claims", expense_claims)
    ∷ (codes "invoices", invoices)
    ∷ (codes "items", items)
    ∷ (codes "journals", journals)
    ∷ (codes "linked_transactions", linked_transactions)
    ∷ (codes "manual_journals", manual_journals)
    ∷ (codes "organisations", organisations)
    ∷ (codes "overpayments", overpayments)
    ∷ (codes "payments", payments)
    ∷ (codes "payment_services", payment_services)
    ∷ (codes "prepayments", prepayments)
    ∷ (codes "purchase_orders", purchase_orders)
    ∷ (codes "quotes", quotes)
    ∷ (codes "receipts", receipts)
    ∷ (codes "repeating_invoices", repeating_invoices)
    ∷ (codes "tax_rates", tax_rates)
    ∷ (codes "tracking_categories", tracking_categories)
    ∷ (codes "users", users)
    ∷ (codes "report_profit_and_loss", report_profit_and_loss)
    ∷ (codes "report_balance_sheet", report_balance_sheet)
    ∷ (codes "report_trial_balance", report_trial_balance)
    ∷ (codes "report_aged_receivables_by_contact", report_aged_receivables_by_contact)
    ∷ (codes "report_aged_payables_by_contact", report_aged_payables_by_contact)
    ∷ (codes "report_bank_summary", report_bank_summary)
    ∷ (codes "report_budget_summary", report_budget_summary)
    ∷ (codes "report_executive_summary", report_executive_summary)
    ∷ []

first_arm : Text → List (Text × EntityType) → Result Error EntityType
first_arm s [] = err (config (codes "unknown entity: " ++ s))
first_arm s ((t, e) ∷ rest) = if text_eq s t then ok e else first_arm s rest

-- `FromStr`
unfoldable pub from_str : Text → Result Error EntityType
unfolding arms first_arm
from_str s = first_arm s arms
