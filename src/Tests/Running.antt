-- ===== src/Tests/Running.antt =====
-- Runs of the plugin definitions, the process and the fetch provider of crates/mh-host.
use magazine_core.Base.{
  arith, ℕ, ◌≤◌, ◌≡◌, ◌≢◌, inl, inr, ◌↔◌, refl, true, leb, ◌++◌, false, List, [], ◌∷◌, none, some,
  All, Any, ok, err, length,
}
use magazine_core.Text.{codes, text_eq, trim, trim_start_by, trim_end_by}
use magazine_core.Text.Utf8.{as_bytes}
use magazine_core.Host.Requests.{PluginManifest}
use magazine_core.Host.Provider.{HostFetchOptions, safe_fetch}
use magazine_core.Host.Provider.Bounded.{IsPermitted, safe_fetch-IsPermitted}
use magazine_core.Host.Process.{Reader, join_reader, Poll, Signal, wait_for_exit, wait_from}
use magazine_core.Host.Process.Returns.{wait_for_exit_returns, wait_for_exit_blocks}
use magazine_core.Host.Process.Outcome.{wait_for_exit_status}
use magazine_core.Host.Plugins.{
  environment_declaration_errors, PluginDefinitionFile, PluginDefinition, Entry, PluginApi,
  discover_plugins, load_from, load_plugin, inherit, insert, environment_errors_from,
  valid_environment_name,
}
use magazine_core.Host.Plugins.Declared.{AreInheritable, environment_declaration_errors_iff}
use magazine_core.Host.Plugins.Loaded.{AreLoaded, discover_plugins-AreLoaded}
use magazine_core.Tests.Fetching.{web, site, get_a}

abbrev strict : HostFetchOptions
strict = record { dev_allow_loopback_fetch = false }

abbrev example_manifest : PluginManifest
example_manifest = record {
  source_name = codes "shelf";
  display_label = [];
  allowed_domains = codes "example" ∷ [];
  capabilities = [];
}

safe_fetch-IsPermitted_example :
    All
      (IsPermitted web site (λ e. []) strict example_manifest 100)
      (safe_fetch web site (λ e. []) strict example_manifest get_a 100).0
    × (length (safe_fetch web site (λ e. []) strict example_manifest get_a 100).0 ≤ 11)
safe_fetch-IsPermitted_example =
    safe_fetch-IsPermitted web site (λ e. []) strict example_manifest get_a 100

abbrev running : ℕ → Poll
running now = record { exited = ok none; now = now }

abbrev ends : List Poll
ends = running 0 ∷ record { exited = ok (some 0); now = 1 } ∷ []

-- A plugin alone on its pipe, and one with a process behind it that ignores SIGTERM.
abbrev alone : Reader
alone sent = true

abbrev behind_kill : Reader
behind_kill sent = leb 2 (length sent)

ends_well : wait_for_exit alone 2 0 ends ≡ some ([], ok (some 0))
unfolding wait_for_exit wait_from join_reader
ends_well = refl

wait_for_exit_status_example :
    (◌≡◌ {A = List Signal} [] []) × Any (λ (p : Poll). p.exited ≡ ok (some 0)) ends
wait_for_exit_status_example = wait_for_exit_status alone 2 0 ends [] 0 ends_well

abbrev hangs : List Poll
hangs = running 0 ∷ running 2 ∷ running 3 ∷ running 4 ∷ running 5 ∷ []

wait_for_exit_returns_example : wait_for_exit alone 2 0 hangs ≢ none
wait_for_exit_returns_example =
    wait_for_exit_returns alone 2 0 (running 0 ∷ []) (running 2) (running 3)
      (running 4 ∷ running 5 ∷ []) (λ sent. refl) (omega arith, tt) (omega arith)
      (inr (inl (omega arith)))

wait_for_exit_blocks_example : wait_for_exit behind_kill 2 0 (ends ++ running 9 ∷ []) ≡ none
wait_for_exit_blocks_example =
    wait_for_exit_blocks behind_kill 2 0 (running 0 ∷ []) (record { exited = ok (some 0); now = 1 })
      (running 9 ∷ []) refl ((refl, omega arith), tt) refl

environment_declaration_errors_iff_example :
    (environment_declaration_errors ((codes "A", codes "1") ∷ []) (codes "a" ∷ codes "B" ∷ []) ≡ [])
    ↔ AreInheritable ((codes "A", codes "1") ∷ []) (codes "a" ∷ codes "B" ∷ [])
environment_declaration_errors_iff_example =
    environment_declaration_errors_iff ((codes "A", codes "1") ∷ []) (codes "a" ∷ codes "B" ∷ [])

-- A directory with one manifest, whose contents the reader knows.
abbrev plugin_file : PluginDefinitionFile
plugin_file = record {
  id = some (codes "shelf");
  source_name = none;
  argv = codes "run" ∷ [];
  env = [];
  env_from = codes "HOME" ∷ [];
  working_dir = none;
}

abbrev plugin_api : PluginApi
plugin_api = record {
  parse = λ raw. some plugin_file;
  var = λ key. some (codes "/h");
  resolve = λ path dir. dir;
}

abbrev entries : List Entry
entries =
    record {
      path = codes "a.txt";
      extension = some (codes "txt");
      file_stem = none;
      contents = err 2;
    }
    ∷ record {
      path = codes "b.json";
      extension = some (codes "json");
      file_stem = none;
      contents = ok [];
    }
    ∷ []

abbrev shelf_plugin : PluginDefinition
shelf_plugin = record {
  id = codes "shelf";
  argv = codes "run" ∷ [];
  env = (codes "HOME", codes "/h") ∷ [];
  working_dir = none;
  manifest_path = codes "b.json";
}

one_plugin : discover_plugins plugin_api (ok entries) ≡ ok (shelf_plugin ∷ [])
unfolding discover_plugins load_from load_plugin inherit insert environment_declaration_errors
    environment_errors_from valid_environment_name as_bytes text_eq trim trim_start_by trim_end_by
one_plugin = refl

discover_plugins-AreLoaded_example : AreLoaded plugin_api entries (shelf_plugin ∷ [])
discover_plugins-AreLoaded_example =
    discover_plugins-AreLoaded plugin_api entries (shelf_plugin ∷ []) one_plugin
