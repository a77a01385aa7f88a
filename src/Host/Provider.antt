-- ===== src/Host/Provider.antt =====
-- The production fetch provider of crates/mh-host/src/lib.rs (`SafeFetchProvider`), over the
-- broker.
pub mod Bounded
use magazine_core.Base.{ℕ, Bool, List, if◌then◌else◌, min, Result, map_err}
use magazine_core.Text.{Text}
use magazine_core.Fetch.Policy.{
  UrlApi, FetchError, FetchRequest, FetchResponse, FetchPolicy, for_allowed_domains,
}
use magazine_core.Fetch.Broker.{
  TransportRequest, Seams, Run, fetch, fetch_with_dev_loopback_allowance,
}
use magazine_core.Host.Requests.{PluginManifest}

pub record HostFetchOptions : Type 0 where
  pub dev_allow_loopback_fetch : Bool

-- The policy of a fetch for a plugin that has this much time left.
unfoldable pub host_policy : PluginManifest → ℕ → FetchPolicy
host_policy manifest timeout =
    let p = for_allowed_domains manifest.allowed_domains in
    let total = min p.total_timeout timeout in
    record p { total_timeout = total; connect_timeout = min p.connect_timeout total }

-- The requests that go out, and the result; `display` gives an error's text.
unfoldable pub safe_fetch :
    (api : UrlApi)
    → Seams api.Url
    → (FetchError → Text)
    → HostFetchOptions
    → PluginManifest
    → FetchRequest
    → ℕ
    → List (TransportRequest api.Url) × Result Text FetchResponse
safe_fetch api seams display options manifest request timeout =
    let p = host_policy manifest timeout in
    let (sent, result) : Run api.Url =
      if options.dev_allow_loopback_fetch
      then fetch_with_dev_loopback_allowance api seams p request
      else fetch api seams p request in
    (sent, map_err display result)
