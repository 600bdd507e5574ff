-- ===== src/Supervisor/Policy.antt =====
-- crates/audiodown-supervisor/src/policy.rs: the containers and the network of a plugin. A token is a
-- text, and SHA-256 is the parameter `sha256`.
pub mod Sandbox
use audio_down_core.Base.{
  ℕ, ◌/◌, ◌%◌, ◌+◌, ◌-◌, Bool, true, false, ◌&&◌, ◌||◌, not, Option, none, some, List, [], ◌∷◌,
  ◌++◌, Result, ok, err, if◌then◌else◌, ltb, leb, nat_beq, ◌==◌, all, is_empty, fail_if, ◌>>=◌,
  ◌>>◌, zero, suc, concat, map, Ordering,
}
use audio_down_core.Base.Int.{ℤ, pos, negsuc}
use audio_down_core.Base.Map.{Map, get, insert}
use audio_down_core.Base.Text.{
  Text, text, text_eq, text_cmp, byte_len, is_ascii_lowercase, is_ascii_digit, contains_char,
}
use audio_down_core.Domain.PluginId.{PluginId}

abbrev pub Labels : Type 0
Labels = Map Text Text

pub data PolicyError : Type 0 where
  invalid_limit invalid_runtime_path invalid_gateway_image invalid_proxy_volume : PolicyError

pub record InstalledPlugin : Type 0 where
  pub plugin_id : PluginId
  pub image_id : Text
  pub installation_id : Text
  pub runtime_path : Text
  pub memory_bytes : ℤ
  pub nano_cpus : ℤ
  pub pids_limit : ℤ

-- What the specifications of the containers have in common.
pub record Confinement : Type 0 where
  pub labels : Labels
  pub read_only : Bool
  pub tmpfs : List Text
  pub mounts : List Text
  pub public_ports : List ℕ
  pub privileged : Bool
  pub cap_add : List Text
  pub cap_drop : List Text
  pub security_opt : List Text
  pub pids_limit : ℤ
  pub memory_bytes : ℤ
  pub nano_cpus : ℤ
  pub host_network : Bool

pub record PluginContainerSpec : Type 0 where
  pub plugin_id : PluginId
  pub image_id : Text
  pub container_name : Text
  pub command : List Text
  pub confinement : Confinement

pub record GatewayRuntimeConfig : Type 0 where
  pub image : Text
  pub proxy_volume : Text

pub record RuntimeResourceNames : Type 0 where
  pub plugin_container : Text
  pub gateway_container : Text
  pub network : Text

pub record PluginNetworkSpec : Type 0 where
  pub name : Text
  pub labels : Labels
  pub internal : Bool
  pub attachable : Bool

pub record RuntimePluginContainerSpec : Type 0 where
  pub container : PluginContainerSpec
  pub network_name : Text
  pub proxy_url : Text
  pub proxy_token : Text
  pub dns : List Text

pub record GatewayContainerSpec : Type 0 where
  pub image : Text
  pub container_name : Text
  pub confinement : Confinement
  pub network_name : Text
  pub network_alias : Text
  pub backend_socket : Text
  pub proxy_volume : Text
  pub dns : List Text

pub record PluginRuntimePolicy : Type 0 where
  pub plugin : RuntimePluginContainerSpec
  pub gateway : GatewayContainerSpec
  pub network : PluginNetworkSpec

-- `u8::is_ascii_alphanumeric`.
abbrev pub is_ascii_alphanumeric : ℕ → Bool
is_ascii_alphanumeric c = is_ascii_lowercase c || is_ascii_digit c || (leb b'A' c && leb c b'Z')

abbrev pub starts_alphanumeric : Text → Bool
starts_alphanumeric [] = false
starts_alphanumeric (c ∷ cs) = is_ascii_alphanumeric c

-- `GatewayRuntimeConfig::new`.
unfoldable pub new_gateway_config : Text → Text → Result GatewayRuntimeConfig PolicyError
new_gateway_config image proxy_volume = do
  fail_if
      (is_empty image
        || ltb 512 (byte_len image)
        || not (all (λ c. is_ascii_alphanumeric c || contains_char c (text "._-/:@")) image))
      invalid_gateway_image
  fail_if
      (is_empty proxy_volume
        || ltb 255 (byte_len proxy_volume)
        || not (starts_alphanumeric proxy_volume)
        || not (all (λ c. is_ascii_alphanumeric c || contains_char c (text "._-")) proxy_volume))
      invalid_proxy_volume
  ok (record { image = image; proxy_volume = proxy_volume })

abbrev pub starts_with : Text → Text → Bool
starts_with [] s = true
starts_with (p ∷ ps) [] = false
starts_with (p ∷ ps) (c ∷ cs) = nat_beq p c && starts_with ps cs

abbrev pub is_positive : ℤ → Bool
is_positive (pos n) = ltb 0 n
is_positive (negsuc n) = false

-- `{byte:02x}`, of the first six bytes of a digest.
abbrev pub hex_digit : ℕ → ℕ
hex_digit n = if ltb n 10 then n + b'0' else n - 10 + b'a'

abbrev pub hex_byte : ℕ → Text
hex_byte n = hex_digit (n / 16) ∷ hex_digit (n % 16) ∷ []

abbrev pub first : ℕ → List ℕ → List ℕ
first zero xs = []
first (suc n) [] = []
first (suc n) (x ∷ xs) = x ∷ first n xs

abbrev pub insert_label : Text → Text → Labels → Labels
insert_label key value labels = insert text_cmp key value labels

abbrev pub installation_label : Text
installation_label = text "io.audiodown.installation"

-- `managed_labels`; `none` is the panic of an index that is missing.
unfoldable pub managed_labels : PluginId → Labels → Text → Option Labels
managed_labels plugin_id plugin_labels resource =
    elim (get text_cmp installation_label plugin_labels) [
      | none ↦ none
      | some installation ↦ some (
          insert_label (text "io.audiodown.resource") resource (
            insert_label (text "io.audiodown.plugin-id") plugin_id.as_str (
              insert_label installation_label installation
                (insert_label (text "io.audiodown.managed") (text "true") []))))
    ]

module _ (sha256 : Text → List ℕ) where
  unfoldable pub short_plugin_hash : PluginId → Text
  short_plugin_hash plugin_id = concat (map hex_byte (first 6 (sha256 plugin_id.as_str)))

  unfoldable pub for_plugin : PluginId → RuntimeResourceNames
  unfolding short_plugin_hash
  for_plugin plugin_id = record {
    plugin_container = text "audiodown-plugin-" ++ short_plugin_hash plugin_id;
    gateway_container = text "audiodown-gateway-" ++ short_plugin_hash plugin_id;
    network = text "audiodown-plugin-network-" ++ short_plugin_hash plugin_id;
  }

  abbrev pub plugin_confinement : InstalledPlugin → Confinement
  plugin_confinement installed = record {
    labels = insert_label (text "io.audiodown.plugin-id") installed.plugin_id.as_str (
        insert_label installation_label installed.installation_id
          (insert_label (text "io.audiodown.managed") (text "true") []));
    read_only = true;
    tmpfs =
        text "/tmp:rw,noexec,nosuid,nodev,size=67108864"
        ∷ text
            "/run/audiodown-secrets:rw,noexec,nosuid,nodev,size=4096,mode=0700,uid=10002,gid=10002"
        ∷ [];
    mounts = [];
    public_ports = [];
    privileged = false;
    cap_add = [];
    cap_drop = text "ALL" ∷ [];
    security_opt = text "no-new-privileges:true" ∷ [];
    pids_limit = installed.pids_limit;
    memory_bytes = installed.memory_bytes;
    nano_cpus = installed.nano_cpus;
    host_network = false;
  }

  -- `PluginContainerPolicy::build`.
  unfoldable pub build_container : InstalledPlugin → Result PluginContainerSpec PolicyError
  unfolding short_plugin_hash
  build_container installed = do
    fail_if
        (not (is_positive installed.memory_bytes)
          || not (is_positive installed.nano_cpus)
          || not (is_positive installed.pids_limit))
        invalid_limit
    fail_if (not (starts_with (text "/plugin/") installed.runtime_path)) invalid_runtime_path
    ok (record {
      plugin_id = installed.plugin_id;
      image_id = installed.image_id;
      container_name = text "audiodown-plugin-" ++ short_plugin_hash installed.plugin_id;
      command = text "node" ∷ installed.runtime_path ∷ [];
      confinement = plugin_confinement installed;
    })

  abbrev pub gateway_confinement : GatewayRuntimeConfig → Labels → Confinement
  gateway_confinement config labels = record {
    labels = labels;
    read_only = true;
    tmpfs = text "/tmp:rw,noexec,nosuid,nodev,size=16777216" ∷ [];
    mounts = (config.proxy_volume ++ text ":/run/audiodown-proxy:ro") ∷ [];
    public_ports = [];
    privileged = false;
    cap_add = [];
    cap_drop = text "ALL" ∷ [];
    security_opt = text "no-new-privileges:true" ∷ [];
    pids_limit = pos 32;
    memory_bytes = pos 67108864;
    nano_cpus = pos 250000000;
    host_network = false;
  }

  -- The specifications, once the labels of the network and of the gateway are there.
  unfoldable pub assemble :
      PluginContainerSpec
      → Labels
      → GatewayRuntimeConfig
      → Text
      → Labels
      → Labels
      → PluginRuntimePolicy
  unfolding for_plugin
  assemble plugin plugin_labels config proxy_token network_labels gateway_labels =
      let names = for_plugin plugin.plugin_id in
      record {
        network = record {
          name = names.network;
          labels = network_labels;
          internal = true;
          attachable = false;
        };
        gateway = record {
          image = config.image;
          container_name = names.gateway_container;
          confinement = gateway_confinement config gateway_labels;
          network_name = names.network;
          network_alias = text "audiodown-gateway";
          backend_socket = text "/run/audiodown-proxy/core.sock";
          proxy_volume = config.proxy_volume;
          dns = text "0.0.0.0" ∷ [];
        };
        plugin = record {
          container = record plugin {
            container_name = names.plugin_container;
            confinement = record plugin.confinement { labels = plugin_labels };
          };
          network_name = names.network;
          proxy_url = text "http://audiodown-gateway:18081";
          proxy_token = proxy_token;
          dns = text "0.0.0.0" ∷ [];
        };
      }

  unfoldable pub build_from :
      Result PluginContainerSpec PolicyError
      → GatewayRuntimeConfig
      → Text
      → Option (Result PluginRuntimePolicy PolicyError)
  unfolding managed_labels assemble
  build_from (err cause) config proxy_token = some (err cause)
  build_from (ok plugin) config proxy_token =
      let labels =
        insert_label (text "io.audiodown.resource") (text "plugin") plugin.confinement.labels in
      elim (managed_labels plugin.plugin_id labels (text "network")) [
        | none ↦ none
        | some network_labels ↦ elim (managed_labels plugin.plugin_id labels (text "gateway")) [
          | none ↦ none
          | some gateway_labels ↦
              some (ok (assemble plugin labels config proxy_token network_labels gateway_labels))
        ]
      ]

  -- `PluginRuntimePolicy::build`; `none` is a panic.
  unfoldable pub build_policy :
      InstalledPlugin
      → GatewayRuntimeConfig
      → Text
      → Option (Result PluginRuntimePolicy PolicyError)
  unfolding build_container build_from
  build_policy installed config proxy_token =
      build_from (build_container installed) config proxy_token
