-- ===== src/Discovery.antt =====
-- cmdboss/discovery/base.py and registry.py: what a provider returns, the registry of providers, and
-- the operations of the two repositories that the reconciler is given, as an interface.
pub mod Reconciler
pub mod Service
pub mod Deployment
use cmdboss.Prelude.{ℕ, String, Option, none, some, List, [], ◌∷◌, Dict, lookup, insert, map}
use cmdboss.Value.{Value}
use cmdboss.Errors.Result.{Result, Exec}
use cmdboss.Repository.Discovery.{Applied, Origin}
use cmdboss.Relationships.Edges.{NewEdge}
use cmdboss.Relationships.Edges.Removal.{EdgeKey}
use cmdboss.Text.{text_le}

pub record DiscoveredCi : Type 0 where
  pub type : String
  pub external_id : String
  pub fields : Dict Value

pub record NodeExternalRef : Type 0 where
  pub type : String
  pub external_id : String

pub record DiscoveredEdge : Type 0 where
  pub rel_type : String
  pub from_ref : NodeExternalRef
  pub to_ref : NodeExternalRef
  pub attributes : Option (Dict Value)

pub record DiscoveryResult : Type 0 where
  pub items : List DiscoveredCi
  pub relationships : List DiscoveredEdge

-- the parameters of a run; its id is a `uuid4().hex`
pub record DiscoveryRun : Type 0 where
  pub source : String
  pub run_id : ℕ
  pub on_missing : String
  pub actor : String

-- a provider reads another system: what it returns, or raises, is its own
pub record Provider : Type 0 where
  pub name : String
  pub discover : Dict Value → Result DiscoveryResult

-- ProviderRegistry.register, get
unfoldable pub register : Provider → Dict Provider → Dict Provider
register p providers = insert p.name p providers

unfoldable pub provider_named : String → Dict Provider → Option Provider
provider_named name providers = lookup name providers

-- CIRepository and RelationshipRepository as the reconciler calls them, on a state of theirs
pub record Repositories (S : Type 0) : Type 0 where
  pub iter_source : String → String → S → Dict String
  pub apply_discovery : String → Dict Value → Origin → String → Exec S (String × Applied)
  -- delete(type_name, ci_id, expected_revision=None, actor=…, request_id=run_id, detach=True)
  pub delete_ci : String → String → DiscoveryRun → Exec S (Unit {0})
  pub mark_missing : String → String → DiscoveryRun → Exec S (Unit {0})
  pub create_edge : NewEdge → DiscoveryRun → Exec S (Unit {0})
  pub iter_source_edges : String → S → List (EdgeKey × String)
  -- delete_edge(edge_id, expected_revision=None, actor=…, request_id=run_id)
  pub delete_edge : String → DiscoveryRun → Exec S (Unit {0})
