-- ===== src/Examples/Command.antt =====
-- The theorems on the sync command as a whole, at concrete inputs.
use xero_visma_v.Base.{
  ℕ, ◌≡◌, refl, ap, map, true, Option, none, some, List, [], ◌∷◌, ◌%◌, ◌^◌, Text, codes, show,
  parse_unsigned, trim, ok, pos,
}
use xero_visma_v.Config.{value, gcs_config}
use xero_visma_v.Config.Settings.{sync_config, parsed_or}
use xero_visma_v.Auth.{new_clients, insert_client, collect_clients, new_client}
use xero_visma_v.Sync.Job.{EntityOutcome}
use xero_visma_v.Entity.{EntityType, as_str}
use xero_visma_v.Entity.Spelling.{from_str_iff}
use xero_visma_v.Base.Bags.{of_list}
use xero_visma_v.Sync.Mode.{master}
use xero_visma_v.Sync.Pump.{
  clamped, UnitOfWork, Pump, prime, on_outcome, ends, Reaches, primed, step,
}
use xero_visma_v.Sync.Pump.Order.{Reaches-of_list}
use xero_visma_v.Sync.Run.{unit_of, entity_or}
use xero_visma_v.Cli.Command.Totals.{figures_of, report_summary-Reaches}
use xero_visma_v.Cli.Resolve.{SyncArgs, resolve_tenants}
use xero_visma_v.Cli.Run.{apply_overrides, resolve_gcs_config, RunManifest, merge, merge_into}
use xero_visma_v.Cli.Command.{
  to_disk, Prepared, tenant_ids, org_names, build_sink, prepare, report_summary,
}
use xero_visma_v.Cli.Command.Laws.{
  IsReady, prepare-IsReady, sum_parts, failed_parts, report_summary-merge,
}
use xero_visma_v.Examples.Inputs.{days}
use xero_visma_v.Examples.Config.{two_blocks, two_connections, two_blocks-accepted}
use xero_visma_v.Examples.Cli.{plain_args}

abbrev local_args : SyncArgs ℕ
local_args = record plain_args { dry_run = true; tenant = codes "u" ∷ [] }

abbrev ready : Prepared
ready = record {
  settings = record {
    window_days = pos 3;
    rolling_full_tight_days = pos 30;
    rolling_full_wide_days = pos 90;
    max_concurrent = 6;
  };
  max_concurrent = 6;
  clients = new_clients two_connections.xero_cc_connections;
  tenants = codes "u" ∷ [];
  gcs = record { bucket = []; prefix = codes "raw/xero" };
  destination = to_disk (codes "./out");
  names = [];
}

prepared : prepare days two_blocks local_args none ≡ ok ready
unfolding prepare value show parse_unsigned trim gcs_config sync_config parsed_or new_clients
    insert_client collect_clients new_client resolve_tenants resolve_gcs_config apply_overrides
    tenant_ids org_names build_sink
prepared = rw two_blocks-accepted refl

prepare-IsReady_example : IsReady days two_blocks local_args ready
prepare-IsReady_example = prepare-IsReady days two_blocks local_args none ready prepared

abbrev outcome : Text → ℕ → Option Text → EntityOutcome
outcome endpoint pages error = record {
  tenant = codes "t";
  endpoint = endpoint;
  pages = pages;
  records = 100;
  termination = codes "last_page";
  error = error;
}

abbrev part : List EntityOutcome → RunManifest
part outcomes = record {
  run_id = codes "r";
  started_at = codes "a";
  finished_at = codes "b";
  mode = codes "backfill";
  window_days = none;
  entities = outcomes;
}

abbrev parts : List RunManifest
parts =
    part (outcome (codes "Accounts") 1 none ∷ [])
    ∷ part (outcome (codes "Invoices") 2 none ∷ outcome (codes "Bills") 0 (some (codes "404")) ∷ [])
    ∷ []

abbrev whole : RunManifest
whole = part (
    outcome (codes "Accounts") 1 none
    ∷ outcome (codes "Invoices") 2 none
    ∷ outcome (codes "Bills") 0 (some (codes "404"))
    ∷ [])

merged : merge parts ≡ ok whole
unfolding merge merge_into
merged = refl

report_summary-merge_example :
    ((report_summary whole).records ≡ sum_parts (λ o. o.records) parts)
    × ((report_summary whole).pages ≡ sum_parts (λ o. o.pages) parts % 2 ^ 32)
    × ((report_summary whole).errors ≡ failed_parts parts)
report_summary-merge_example = report_summary-merge parts whole merged

-- Two units at a time, of which the later ends first.
abbrev own : UnitOfWork → EntityOutcome
own (t, e) = record {
  tenant = t;
  endpoint = as_str e;
  pages = 1;
  records = 2;
  termination = codes "empty-page";
  error = none;
}

abbrev Own : UnitOfWork → EntityOutcome → Type 0
Own u o = o ≡ own u

Own-unit_of : (u : UnitOfWork) (o : EntityOutcome) → Own u o → unit_of o ≡ u
Own-unit_of (t, e) o h = rw h (ap (λ x. (t, entity_or x)) ((from_str_iff (as_str e) e).1 refl))

abbrev first : UnitOfWork
first = (codes "t", EntityType.accounts)

abbrev second : UnitOfWork
second = (codes "t", EntityType.invoices)

abbrev late : Pump EntityOutcome
late = record { pending = []; in_flight = []; outcomes = own second ∷ own first ∷ [] }

late-Reaches : Reaches Own 2 (first ∷ second ∷ []) late
unfolding prime clamped on_outcome
late-Reaches =
    step (step primed (ends (first ∷ []) second [] (own second) refl))
      (ends [] first [] (own first) refl)

Reaches-of_list_example : of_list late.outcomes ≡ of_list (map own (first ∷ second ∷ []))
Reaches-of_list_example =
    Reaches-of_list Own own (λ u o h. h) 2 (first ∷ second ∷ []) unit_of Own-unit_of late-Reaches
      refl

report_summary-Reaches_example :
    figures_of days (codes "r") (codes "a") (codes "b") master late.outcomes
    ≡ figures_of days (codes "r") (codes "a") (codes "b") master (map own (first ∷ second ∷ []))
report_summary-Reaches_example =
    report_summary-Reaches days (codes "r") (codes "a") (codes "b") master Own own unit_of
      (λ u o h. h) Own-unit_of 2 (first ∷ second ∷ []) late-Reaches refl
