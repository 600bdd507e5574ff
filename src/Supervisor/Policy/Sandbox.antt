-- ===== src/Supervisor/Policy/Sandbox.antt =====
-- What every policy that policy.rs builds forbids its containers.
use audio_down_core.Base.{
  ℕ, true, false, Option, none, some, List, [], ◌∷◌, ◌++◌, ◌≡◌, ◌≢◌, ◌⊎◌, Result, ok, err,
}
use audio_down_core.Base.Map.{get}
use audio_down_core.Base.Text.{Text, text, text_cmp}
use audio_down_core.Supervisor.Policy.{
  PolicyError, InstalledPlugin, Confinement, PluginContainerSpec, GatewayRuntimeConfig,
  PluginRuntimePolicy, invalid_limit, invalid_runtime_path, is_positive, installation_label,
  short_plugin_hash, plugin_confinement,
}

-- No rights beyond an unprivileged process, no writable root, no port, and limits on the resources.
abbrev pub IsConfined : Confinement → Type 0
IsConfined c =
    (c.read_only ≡ true)
    × (c.privileged ≡ false)
    × (c.host_network ≡ false)
    × (c.public_ports ≡ [])
    × (c.cap_add ≡ [])
    × (c.cap_drop ≡ text "ALL" ∷ [])
    × (c.security_opt ≡ text "no-new-privileges:true" ∷ [])
    × (is_positive c.memory_bytes ≡ true)
    × (is_positive c.nano_cpus ≡ true)
    × (is_positive c.pids_limit ≡ true)

-- Both containers are confined, the plugin mounts nothing and the gateway the proxy's volume for
-- reading, they meet on one internal network, and everything is labelled with the installation.
abbrev pub IsSandbox : InstalledPlugin → GatewayRuntimeConfig → PluginRuntimePolicy → Type 0
IsSandbox installed config policy =
    IsConfined policy.plugin.container.confinement
    × IsConfined policy.gateway.confinement
    × (policy.plugin.container.confinement.mounts ≡ [])
    × (policy.gateway.confinement.mounts
        ≡ (config.proxy_volume ++ text ":/run/audiodown-proxy:ro") ∷ [])
    × (policy.network.internal ≡ true)
    × (policy.network.attachable ≡ false)
    × (policy.plugin.network_name ≡ policy.network.name)
    × (policy.gateway.network_name ≡ policy.network.name)
    × (policy.plugin.container.command ≡ text "node" ∷ installed.runtime_path ∷ [])
    × ((rest : Text) × (installed.runtime_path ≡ text "/plugin/" ++ rest))
    × (get text_cmp installation_label policy.plugin.container.confinement.labels
        ≡ some installed.installation_id)
    × (get text_cmp installation_label policy.gateway.confinement.labels
        ≡ some installed.installation_id)
    × (get text_cmp installation_label policy.network.labels ≡ some installed.installation_id)

-- A limit that is zero or negative.
abbrev pub IsUnlimited : InstalledPlugin → Type 0
IsUnlimited installed =
    (is_positive installed.memory_bytes ≡ false)
    ⊎ ((is_positive installed.nano_cpus ≡ false) ⊎ (is_positive installed.pids_limit ≡ false))

-- A refusal for its reason, or a sandbox; never a panic.
abbrev pub IsSafe :
    InstalledPlugin
    → GatewayRuntimeConfig
    → Option (Result PluginRuntimePolicy PolicyError)
    → Type 0
IsSafe installed config none = ⊥
IsSafe installed config (some (err cause)) =
    ((cause ≡ invalid_limit) × IsUnlimited installed)
    ⊎ ((cause ≡ invalid_runtime_path)
        × ((rest : Text) → installed.runtime_path ≢ text "/plugin/" ++ rest))
IsSafe installed config (some (ok policy)) = IsSandbox installed config policy

module _ (sha256 : Text → List ℕ) (installed : InstalledPlugin) (config : GatewayRuntimeConfig)
    (proxy_token : Text) where
  abbrev spec : PluginContainerSpec
  spec = record {
    plugin_id = installed.plugin_id;
    image_id = installed.image_id;
    container_name = text "audiodown-plugin-" ++ short_plugin_hash sha256 installed.plugin_id;
    command = text "node" ∷ installed.runtime_path ∷ [];
    confinement = plugin_confinement sha256 installed;
  }
