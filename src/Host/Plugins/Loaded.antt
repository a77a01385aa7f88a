-- ===== src/Host/Plugins/Loaded.antt =====
-- What the discovery of plugin definitions gives.
use magazine_core.Base.{
  ◌≡◌, ◌≢◌, List, [], ◌∷◌, map, All, arith, inl, inr, ok, Result-cases, Bool-cases, Option-cases,
  if◌then◌else◌, some,
}
use magazine_core.Text.{Text, trim}
use magazine_core.Host.Plugins.{
  PluginApi, or_option, PluginDefinitionFile, PluginDefinition, Entry, inherit, load_plugin,
  is_manifest, load_from, discover_plugins,
}
use magazine_core.Host.Plugins.Declared.{
  IsIn, AreDistinct, member_of-IsIn, AreInheritable, unseen_more,
  environment_declaration_errors_iff,
}

module _ (api : PluginApi) where
  -- The plugin of a manifest: the entry can be read, its text is a definition with a program and
  -- with declarations of the environment that are in order, and the plugin has the definition's
  -- program, its first id that there is, and its environment with the host's values of the
  -- variables that it asks for.
  pub record IsLoaded (entry : Entry) (plugin : PluginDefinition) : Type 0 where
    pub raw : Text
    pub contents : entry.contents ≡ ok raw
    pub file : PluginDefinitionFile
    pub parsed : api.parse raw ≡ some file
    pub argv : (plugin.argv ≡ file.argv) × (plugin.argv ≢ [])
    pub id : or_option file.id (or_option file.source_name entry.file_stem) ≡ some plugin.id
    pub filled : trim plugin.id ≢ []
    pub declared : AreInheritable file.env file.env_from
    pub env : plugin.env ≡ inherit api file.env_from file.env
    pub path : plugin.manifest_path ≡ entry.path

  load_plugin-IsLoaded :
      (entry : Entry) {plugin : PluginDefinition}
      → load_plugin api entry ≡ ok plugin
      → IsLoaded entry plugin
  unfolding load_plugin
  load_plugin-IsLoaded entry {plugin} e = elim (Result-cases entry.contents) [
    | inr (x, bad) ↦ absurd (ground (arith, bad))
    | inl (raw, good) ↦ elim (Option-cases (api.parse raw)) [
      | inl unread ↦ absurd (ground (arith, good, unread))
      | inr (file, read) ↦ record {
        raw = raw;
        contents = good;
        file = file;
        parsed = read;
        argv = ground (arith, good, read);
        id = ground (arith, good, read);
        filled = ground (arith, good, read);
        declared =
            (environment_declaration_errors_iff file.env file.env_from).0
              (ground (arith, good, read));
        env = ground (arith, good, read);
        path = ground (arith, good, read);
      }
    ]
  ]

  -- The manifests among the entries.
  abbrev pub manifests : List Entry → List Entry
  manifests [] = []
  manifests (entry ∷ entries) =
      if is_manifest api entry then entry ∷ manifests entries else manifests entries

  -- Each plugin is that of the entry at its place.
  abbrev pub AreOf : List Entry → List PluginDefinition → Type 0
  AreOf [] [] = Unit
  AreOf (entry ∷ entries) (plugin ∷ plugins) = IsLoaded entry plugin × AreOf entries plugins
  AreOf _ _ = ⊥

  abbrev ids : List PluginDefinition → List Text
  ids = map λ plugin. plugin.id

  -- The plugins of the manifests, in their order and with distinct ids.
  pub record AreLoaded (entries : List Entry) (plugins : List PluginDefinition) : Type 0 where
    pub loaded : AreOf (manifests entries) plugins
    pub distinct : AreDistinct (ids plugins)

  load_from-AreLoaded :
      (seen : List Text) (entries : List Entry) (plugins : List PluginDefinition)
      → load_from api seen entries ≡ ok plugins
      → AreLoaded entries plugins × All (λ id. ¬ IsIn id seen) (ids plugins)
  unfolding load_from
  load_from-AreLoaded seen [] plugins e = ground arith
  load_from-AreLoaded seen (entry ∷ entries) plugins e = elim (Bool-cases (is_manifest api entry)) [
    | inr other ↦
        let (rest, unseen) = load_from-AreLoaded seen entries plugins (ground (arith, other)) in
        (record { loaded = rw other rest.loaded; distinct = rest.distinct }, unseen)
    | inl manifest ↦ elim (Result-cases (load_plugin api entry)) [
      | inr (x, bad) ↦ absurd (ground (arith, manifest, bad))
      | inl (plugin, good) ↦ elim (Result-cases (load_from api (plugin.id ∷ seen) entries)) [
        | inr (x, stopped) ↦ absurd (ground (arith, manifest, good, stopped))
        | inl (others, went) ↦
            let (rest, unseen) = load_from-AreLoaded (plugin.id ∷ seen) entries others went in
            let (fresh, apart) = (unseen_more plugin.id seen (ids others)).0 unseen in
            let startable = load_plugin-IsLoaded entry good in
            let new : ¬ IsIn plugin.id seen =
              λ h. ground (arith, manifest, good, went, (member_of-IsIn plugin.id seen).1 h) in
            let all : plugins ≡ plugin ∷ others = ground (arith, manifest, good, went) in
            rw all (
              record {
                loaded = rw manifest (startable, rest.loaded);
                distinct = (fresh, rest.distinct);
              },
              (new, apart),
            )
      ]
    ]
  ]

  -- A discovery that succeeds gives a plugin for each manifest of the directory, in the order of the
  -- entries and with distinct ids. Each is what the manifest's text says: it has its program, its id
  -- or else its source's name or the file's stem, none of them empty, and its environment, whose
  -- declarations are in order, with the host's values of the variables that it asks for.
  pub discover_plugins-AreLoaded :
      (entries : List Entry) (plugins : List PluginDefinition)
      → discover_plugins api (ok entries) ≡ ok plugins
      → AreLoaded entries plugins
  unfolding discover_plugins
  discover_plugins-AreLoaded entries plugins e = (load_from-AreLoaded [] entries plugins e).0
