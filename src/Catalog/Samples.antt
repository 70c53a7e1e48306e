-- ===== src/Catalog/Samples.antt =====
-- Two services of a workspace, one of which depends on the other.
use Prim.Native.String.{String}
use deployguardai.Prelude.{none, some, List, [], ◌∷◌}
use deployguardai.Workspace.Samples.{sample_store}
use deployguardai.Catalog.Graph.{ServiceRow}
use deployguardai.Catalog.Services.{ServiceTables, ServiceCreate, ServiceUpdate}

abbrev pub service_row : (id : String) (dependencies : List String) → ServiceRow
service_row v ds = record {
  id = v;
  workspace_id = "w1";
  name = v;
  slug = v;
  description = "";
  tier = "tier_1";
  lifecycle = "active";
  owner_team = "core";
  repository_id = none;
  dependencies = ds;
  runbook_url = none;
  tags = [];
  created_at = 1;
  updated_at = 1;
}

abbrev pub two_services : List ServiceRow
two_services = service_row "a" ("b" ∷ []) ∷ service_row "b" [] ∷ []

abbrev pub no_services : ServiceTables
no_services = record { base = sample_store; services = []; repositories = [] }

abbrev pub created : (slug : String) (dependencies : List String) → ServiceCreate
created slug ds = record {
  name = slug;
  slug = slug;
  description = "";
  tier = "tier_1";
  lifecycle = "active";
  owner_team = "core";
  repository_id = none;
  dependencies = ds;
  runbook_url = none;
  tags = [];
}

abbrev pub dependent_on : (dependencies : List String) → ServiceUpdate
dependent_on ds = record {
  name = none;
  slug = none;
  description = none;
  tier = none;
  lifecycle = none;
  owner_team = none;
  repository_id = none;
  dependencies = some ds;
  runbook_url = none;
  tags = none;
}
