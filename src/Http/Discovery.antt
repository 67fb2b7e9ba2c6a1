-- ===== src/Http/Discovery.antt =====
-- routers/discovery.py: the routes of the runs of discovery and of the webhooks.
use cmdboss.Prelude.{ℕ, String, Bool, Option, List, Dict, map, sort}
use cmdboss.Value.{Value}
use cmdboss.Text.{text_le}
use cmdboss.Errors.Result.{ok, Exec, pure, ◌>>=◌}
use cmdboss.Driver.{Driver}
use cmdboss.Security.{Principal}
use cmdboss.Discovery.{Repositories, Provider}
use cmdboss.Discovery.Service.{RunReadings, RunDoc, Outcome, Runs, run, get_run, list_runs}
use cmdboss.Webhooks.{Webhook, WebhookView, register_webhook, list_webhooks}
use cmdboss.Http.Graph.{Reply, reply}

pub record DiscoveryRunRequest : Type 0 where
  pub provider : String
  pub config : Option (Dict Value)
  pub source : Option String
  pub on_missing : Option String

pub record WebhookCreate : Type 0 where
  pub url : String
  pub event_types : Option (List String)
  pub secret : Option String

-- ProviderRegistry.names: sorted(self._providers)
unfoldable pub provider_names : Dict Provider → List String
provider_names providers = sort text_le (map (λ e. e.0) providers)

unfoldable pub list_providers : Dict Provider → Principal → Reply (List String)
unfolding provider_names
list_providers providers p = reply 200 (provider_names providers)

module _ (mongo : Driver) {S : Type 0} (repos : Repositories S) (default : String) where
  unfoldable pub run_discovery :
      RunReadings
      → DiscoveryRunRequest
      → Dict Provider
      → Principal
      → Exec (Runs mongo repos default) (Reply Outcome)
  run_discovery r body providers p = do
    outcome ←
        run mongo repos default r
          (record {
            provider_name = body.provider;
            config = body.config;
            source = body.source;
            on_missing = body.on_missing;
            actor = p.name;
          })
          providers
    pure (reply 200 outcome)

module _ (mongo : Driver) where
  unfoldable pub list_runs_route :
      Option String → ℕ → Principal → Exec (mongo.Coll RunDoc) (Reply (List RunDoc))
  list_runs_route source limit p c = (ok (reply 200 (list_runs mongo source limit c)), c)

  unfoldable pub get_run_route : ℕ → Principal → Exec (mongo.Coll RunDoc) (Reply RunDoc)
  get_run_route run_id p = do doc ← (λ c. (get_run mongo run_id c, c)); pure (reply 200 doc)

  unfoldable pub create_webhook :
      ℕ → ℕ → WebhookCreate → Principal → Exec (mongo.Coll Webhook) (Reply (WebhookView × Bool))
  create_webhook id at body p = do
    hook ← register_webhook mongo id at body.url body.event_types body.secret
    pure (reply 201 hook)

  unfoldable pub list_webhooks_route :
      Principal → Exec (mongo.Coll Webhook) (Reply (List WebhookView))
  list_webhooks_route p c = (ok (reply 200 (list_webhooks mongo c)), c)
