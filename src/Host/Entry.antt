-- ===== src/Host/Entry.antt =====
-- The ways to start a run in crates/mh-host/src/lib.rs (`PluginHost::run_discover` and its
-- variants). Each fetch has its own resolver, transport and clock.
use magazine_core.Base.{ℕ, true, false, List, Option, Result, err}
use magazine_core.Text.{Text, codes}
use magazine_core.Json.{Value}
use magazine_core.Fetch.Policy.{UrlApi, FetchError, FetchRequest, FetchResponse}
use magazine_core.Fetch.Broker.{Seams}
use magazine_core.Protocol.Framing.{Writer}
use magazine_core.Host.Error.{HostError}
use magazine_core.Host.Spool.{DiscoverLimits}
use magazine_core.Host.Requests.{PluginManifest, StateOperation}
use magazine_core.Host.Machine.{Machine}
use magazine_core.Host.Handle.{HostApi}
use magazine_core.Host.ReadLoop.{Tick}
use magazine_core.Host.Provider.{HostFetchOptions, safe_fetch}
use magazine_core.Host.Discover.{Surroundings, HostRun, run_discover_with_providers_and_cancel}

abbrev pub StateProvider : Type 0
StateProvider = StateOperation → Result Text Value

abbrev pub FetchProvider : Type 0
FetchProvider = PluginManifest → FetchRequest → ℕ → Result Text FetchResponse

-- `NoStateProvider`.
unfoldable pub no_state : StateProvider
no_state operation = err (codes "state provider is not configured")

-- `HostFetchOptions::default`.
abbrev no_options : HostFetchOptions
no_options = record { dev_allow_loopback_fetch = false }

module _ (api : HostApi) (env : Surroundings) (web : UrlApi)
    (seams : PluginManifest → FetchRequest → ℕ → Seams web.Url) (display : FetchError → Text)
    (request_id : Text) (limits : DiscoverLimits) where
  abbrev pub Started : Type 0
  Started = List Tick → Writer → Result HostError (Option HostRun) × Machine

  abbrev safe_provider : HostFetchOptions → FetchProvider
  safe_provider options manifest request timeout =
      (safe_fetch web (seams manifest request timeout) display options manifest request timeout).1

  unfoldable pub run_discover_with_providers : StateProvider → FetchProvider → Started
  run_discover_with_providers state fetch =
      run_discover_with_providers_and_cancel api env request_id limits
        (record { query = state; fetch_url = fetch }) false

  unfoldable pub run_discover : Started
  run_discover = run_discover_with_providers no_state (safe_provider no_options)

  unfoldable pub run_discover_with_state_provider : StateProvider → Started
  run_discover_with_state_provider state =
      run_discover_with_providers state (safe_provider no_options)

  unfoldable pub run_discover_with_state_provider_and_fetch_options :
      StateProvider → HostFetchOptions → Started
  run_discover_with_state_provider_and_fetch_options state options =
      run_discover_with_providers state (safe_provider options)

  unfoldable pub run_discover_with_state_provider_and_cancel : StateProvider → Started
  run_discover_with_state_provider_and_cancel state =
      run_discover_with_providers_and_cancel api env request_id limits
        (record { query = state; fetch_url = safe_provider no_options }) true
