-- ===== src/Entity/Equality.antt =====
-- The derived equality of `EntityType` (core/crates/xero-common/src/types.rs) is equality.
use xero_visma_v.Base.{
  ℕ, ◌-◌, ◌≡◌, refl, ap, true, Option, none, some, List, [], ◌∷◌, ◌==◌, ==_iff, if◌then◌else◌,
}
use xero_visma_v.Entity.{EntityType, discriminant, entity_eq}

variants : List EntityType
variants =
    EntityType.accounts ∷ EntityType.journals ∷ EntityType.manual_journals ∷ EntityType.tax_rates
    ∷ EntityType.tracking_categories ∷ EntityType.contacts ∷ EntityType.invoices
    ∷ EntityType.credit_notes ∷ EntityType.quotes ∷ EntityType.payments
    ∷ EntityType.repeating_invoices ∷ EntityType.bills ∷ EntityType.purchase_orders
    ∷ EntityType.receipts ∷ EntityType.expense_claims ∷ EntityType.batch_payments
    ∷ EntityType.linked_transactions ∷ EntityType.bank_transactions ∷ EntityType.bank_transfers
    ∷ EntityType.items ∷ EntityType.prepayments ∷ EntityType.overpayments ∷ EntityType.employees
    ∷ EntityType.currencies ∷ EntityType.organisations ∷ EntityType.branding_themes
    ∷ EntityType.contact_groups ∷ EntityType.budgets ∷ EntityType.payment_services
    ∷ EntityType.users ∷ EntityType.report_profit_and_loss ∷ EntityType.report_balance_sheet
    ∷ EntityType.report_trial_balance ∷ EntityType.report_aged_receivables_by_contact
    ∷ EntityType.report_aged_payables_by_contact ∷ EntityType.report_bank_summary
    ∷ EntityType.report_budget_summary ∷ EntityType.report_executive_summary ∷ []

variant_at : List EntityType → ℕ → Option EntityType
variant_at [] n = none
variant_at (e ∷ es) n = let later = variant_at es (n - 1) in if n == 0 then some e else later

variant_at-discriminant : (e : EntityType) → variant_at variants (discriminant e) ≡ some e
unfolding variants variant_at discriminant
variant_at-discriminant EntityType.accounts = refl
variant_at-discriminant _ = refl

pub entity_eq→eq : (a b : EntityType) → entity_eq a b ≡ true → a ≡ b
unfolding entity_eq
entity_eq→eq a b h =
    let same : discriminant a ≡ discriminant b = (==_iff (discriminant a) (discriminant b)).0 h in
    cc (variant_at-discriminant a, variant_at-discriminant b, ap (variant_at variants) same)
