-- ===== src/Host/Provider/Bounded.antt =====
-- What a plugin can reach through the production fetch provider.
use magazine_core.Base.{
  ℕ, ◌*◌, ◌≤◌, ◌≡◌, List, [], ◌∷◌, some, All, Any, arith, length, if◌then◌else◌,
}
use magazine_core.Text.{Text}
use magazine_core.Fetch.Address.{ResolvedAddressPolicy, default, dev_allow_loopback}
use magazine_core.Fetch.Policy.{UrlApi, FetchError, FetchRequest}
use magazine_core.Fetch.Policy.Domains.{Admits, IsResolved}
use magazine_core.Fetch.Broker.{
  TransportRequest, Seams, fetch, fetch_with_dev_loopback_allowance, fetch_with_address_policy,
}
use magazine_core.Fetch.Broker.Safety.{IsSafe, fetch-IsSafe}
use magazine_core.Host.Requests.{PluginManifest}
use magazine_core.Host.Provider.{HostFetchOptions, host_policy, safe_fetch}

All-map : {A : Type 0} {P Q : A → Type 0} → ((a : A) → P a → Q a) → (l : List A) → All P l → All Q l
All-map f [] h = tt
All-map f (a ∷ l) (p, h) = (f a p, All-map f l h)

abbrev pub address_policy : HostFetchOptions → ResolvedAddressPolicy
address_policy options = if options.dev_allow_loopback_fetch then dev_allow_loopback else default

module _ (api : UrlApi) (seams : Seams api.Url) (display : FetchError → Text) where
  -- A request for a plugin: to a host that its manifest allows, at permitted addresses, in the time
  -- that the run has left, and with a bounded response.
  pub record IsPermitted (options : HostFetchOptions) (manifest : PluginManifest) (timeout : ℕ)
      (request : TransportRequest api.Url) : Type 0 where
    pub host : Text
    pub found : api.host_str request.url ≡ some host
    pub allowed : Any (Admits host) manifest.allowed_domains
    pub addrs : IsResolved (address_policy options) request.resolved_addrs
    pub within : request.timeout ≤ timeout
    pub connect_within : request.connect_timeout ≤ timeout
    pub size : request.max_response_bytes ≡ 5 * 1024 * 1024

  safe-IsPermitted :
      (options : HostFetchOptions) (manifest : PluginManifest) (timeout : ℕ)
      (request : TransportRequest api.Url)
      → IsSafe api seams (host_policy manifest timeout) (address_policy options) request
      → IsPermitted options manifest timeout request
  unfolding host_policy
  safe-IsPermitted options manifest timeout request h = record {
    host = h.url.host;
    found = h.url.found;
    allowed = h.url.allowed;
    addrs = h.addrs;
    within = omega (arith, h.timeout);
    connect_within = omega (arith, h.timeout, h.connect_timeout);
    size = h.size;
  }

  safe_fetch_sent :
      (options : HostFetchOptions) (manifest : PluginManifest) (request : FetchRequest)
      (timeout : ℕ)
      → (safe_fetch api seams display options manifest request timeout).0
        ≡ (fetch_with_address_policy api seams
            (host_policy manifest timeout)
            request
            (address_policy options)).0
  unfolding safe_fetch fetch fetch_with_dev_loopback_allowance
  safe_fetch_sent options manifest request timeout = ground arith

  -- Whatever a plugin asks for, and whatever the servers answer: each request that goes out for
  -- it is permitted, and there are at most eleven.
  pub safe_fetch-IsPermitted :
      (options : HostFetchOptions) (manifest : PluginManifest) (request : FetchRequest)
      (timeout : ℕ)
      → All
          (IsPermitted options manifest timeout)
          (safe_fetch api seams display options manifest request timeout).0
        × (length (safe_fetch api seams display options manifest request timeout).0 ≤ 11)
  unfolding host_policy
  safe_fetch-IsPermitted options manifest request timeout =
      let (safe, few) =
        fetch-IsSafe api seams (host_policy manifest timeout) request (address_policy options) in
      rw (safe_fetch_sent options manifest request timeout)
        (All-map (safe-IsPermitted options manifest timeout) _ safe, few)
