-- ===== src/Connector.antt =====
-- internal/connector/registry.go: the factories of connectors by type, and those of plugins. The lock
-- makes each access to the registry one step. Factories, the plugin manager and the connectors act on
-- the world `W`; a connector's configuration schema is a value.
pub mod Checked
use agent_brain.Base.{
  Bool, true, false, Option, none, some, List, [], ◌∷◌, ◌++◌, if◌then◌else◌, length, drop,
}
use agent_brain.Base.Bytes.{Bytes, codes, bytes_eq}
use agent_brain.Base.Map.{Map, lookup, insert}
use agent_brain.Base.Strings.{has_prefix}
use agent_brain.Retry.Errors.{message, Error, Result, ok, err}
use agent_brain.Retry.Executor.{Operation}
use agent_brain.Delta.Store.{◌>>=◌, return, fail, context}

-- The values of a schema: `map[string]interface{}` with texts, flags and lists of texts.
mutual
  pub data Value : Type 0 where
    text : Bytes → Value
    flag : Bool → Value
    texts : List Bytes → Value
    object : Entries → Value

  pub data Entries : Type 0 where
    nil : Entries
    entry : Bytes → Value → Entries → Entries

-- A source's configuration: the type, which the registry reads, and what it hands to the checks of a
-- connector. A factory reads more of it, as its batch size; factories are parameters.
pub record SourceConfig : Type 0 where
  pub type : Bytes
  pub enabled : Bool
  pub auth : Map Bytes
  pub options : Map Bytes

-- The methods of a connector that are called here.
pub record Connector (W : Type 0) : Type 0 where
  pub validate_config : Map Bytes → Map Bytes → Operation W (Unit {0})
  pub config_schema : Entries

abbrev pub Factory : Type 0 → Type 0
Factory W = SourceConfig → Operation W (Connector W)

abbrev pub PluginManager : Type 0 → Type 0
PluginManager W = Bytes → Operation W (Factory W)

pub record Registry (W : Type 0) : Type 0 where
  pub factories : Map (Factory W)
  pub plugin_manager : Option (PluginManager W)

-- `strings.TrimPrefix(t, "plugin:")` of a text that has it.
unfoldable pub plugin_name : Bytes → Bytes
plugin_name t = drop (length (codes "plugin:")) t

unfoldable pub is_plugin : Bytes → Bool
is_plugin t = has_prefix t (codes "plugin:")

-- A field of a schema: its type, its description, what else is said of it, and whether it is required.
unfoldable pub property : Bytes → Entries → Bool → Value
property description more required = object (
    entry (codes "type") (text (codes "string")) (
      entry (codes "description") (text description)
        (entry (codes "required") (flag required) more)))

unfoldable pub salesforce_schema : Entries
salesforce_schema = entry (codes "type") (text (codes "object")) (
    entry (codes "properties")
      (object (
        entry (codes "client_id") (property (codes "Salesforce OAuth2 client ID") nil true) (
          entry (codes "client_secret")
            (property (codes "Salesforce OAuth2 client secret") nil true)
            (entry (codes "username")
              (property (codes "Salesforce username (must be a valid email)")
                (entry (codes "format") (text (codes "email")) nil) true)
              (entry (codes "password") (property (codes "Salesforce password") nil true) (
                entry (codes "security_token")
                  (property (codes "Salesforce security token") nil true)
                  (entry (codes "login_url")
                    (property (codes "Salesforce login URL")
                      (entry (codes "format") (text (codes "url"))
                        (entry (codes "default") (text (codes "https://login.salesforce.com")) nil))
                      false)
                    (entry (codes "api_version")
                      (property (codes "Salesforce API version (e.g., v59.0)")
                        (entry (codes "pattern") (text (codes "^v\\d+\\.\\d+$"))
                          (entry (codes "default") (text (codes "v59.0")) nil))
                        false)
                      nil))))))))
      (entry (codes "required")
        (texts (
          codes "client_id"
          ∷ (codes "client_secret"
              ∷ (codes "username" ∷ (codes "password" ∷ (codes "security_token" ∷ []))))))
        nil))

module _ {W : Type 0} where
  unfoldable pub new_registry : Registry W
  new_registry = record { factories = []; plugin_manager = none }

  unfoldable pub set_plugin_manager : PluginManager W → Registry W → Registry W
  set_plugin_manager pm r = record r { plugin_manager = some pm }

  -- `Register`
  unfoldable pub register : Bytes → Factory W → Registry W → Registry W
  register connector_type factory r = record r {
    factories = insert connector_type factory r.factories;
  }

  -- `Types`, in the order of the map's iteration.
  abbrev keys : Map (Factory W) → List Bytes
  keys [] = []
  keys ((t, f) ∷ m) = t ∷ keys m

  unfoldable pub registered_types : Registry W → List Bytes
  registered_types r = keys r.factories

  -- `Create` and `ValidateSourceConfig` with the factory that is registered, if any.
  unfoldable pub create_known : (Bytes → Bytes) → Option (Factory W) → Factory W
  create_known quoted none cfg =
      fail (message (codes "unknown connector type: " ++ quoted cfg.type))
  create_known quoted (some factory) cfg = factory cfg

  unfoldable pub validate_known : Option (Factory W) → SourceConfig → Operation W (Unit {0})
  validate_known none cfg = fail (message (codes "unknown connector type: " ++ cfg.type))
  validate_known (some factory) cfg =
      context (codes "failed to create connector for validation") (factory cfg) >>= λ c.
      c.validate_config cfg.auth cfg.options

  module _ (r : Registry W) where
    -- The factory of a plugin's type; the texts are those of the two errors that differ between the
    -- three callers.
    unfoldable pub plugin_factory : Bytes → Bytes → Bytes → Operation W (Factory W)
    plugin_factory no_manager no_factory t = elim r.plugin_manager [
      | none ↦ fail (message no_manager)
      | some manager ↦
          if bytes_eq (plugin_name t) []
          then fail (message (codes "invalid plugin connector type: " ++ t))
          else context no_factory (manager (plugin_name t))
    ]

    -- `createPluginConnector`
    unfoldable pub create_plugin_connector : Factory W
    create_plugin_connector cfg =
        plugin_factory (codes "plugin manager not available for plugin connector: " ++ cfg.type)
          (codes "get plugin factory for " ++ plugin_name cfg.type) cfg.type
        >>= λ factory. factory cfg

    -- `Create`; `quoted` is the `%q` of a text.
    unfoldable pub create : (Bytes → Bytes) → Factory W
    create quoted cfg =
        if is_plugin cfg.type
        then create_plugin_connector cfg
        else create_known quoted (lookup cfg.type r.factories) cfg

    -- `validatePluginSourceConfig`
    unfoldable pub validate_plugin_source_config : SourceConfig → Operation W (Unit {0})
    validate_plugin_source_config cfg =
        plugin_factory (codes "plugin manager not available for validation")
          (codes "get plugin factory for validation") cfg.type
        >>= λ factory.
            context (codes "failed to create plugin connector for validation") (factory cfg)
            >>= λ c. c.validate_config cfg.auth cfg.options

    -- `ValidateSourceConfig`
    unfoldable pub validate_source_config : SourceConfig → Operation W (Unit {0})
    validate_source_config cfg =
        if is_plugin cfg.type
        then validate_plugin_source_config cfg
        else validate_known (lookup cfg.type r.factories) cfg

    -- `getPluginConnectorSchema`
    unfoldable pub get_plugin_connector_schema : Bytes → Operation W Entries
    get_plugin_connector_schema t =
        plugin_factory (codes "plugin manager not available")
          (codes "get plugin factory for schema") t
        >>= λ factory.
            context (codes "create temporary plugin connector for schema")
              (factory (record { type = t; enabled = false; auth = []; options = [] }))
            >>= λ c. return c.config_schema

    -- `GetConnectorSchema`
    unfoldable pub get_connector_schema : Bytes → Operation W Entries
    get_connector_schema t =
        if is_plugin t then get_plugin_connector_schema t else elim (lookup t r.factories) [
          | none ↦ fail (message (codes "unknown connector type: " ++ t))
          | some factory ↦
              if bytes_eq t (codes "salesforce")
              then return salesforce_schema
              else fail (message (codes "schema not available for connector type: " ++ t))
        ]
