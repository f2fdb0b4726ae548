-- ===== src/Client/Config.antt =====
-- src/client/config.ts: the transport of rows that a generated configuration asks for.
use sync_engine_v.Base.{ℕ, String, Bool, Option, none, some}
use sync_engine_v.Base.Dict.{Dict}
use sync_engine_v.Json.{Json}
use sync_engine_v.Errors.{Result, err, plain}
use sync_engine_v.Limits.{ProtocolLimitOverrides}
use sync_engine_v.Protocol.{SyncRequestEnvelope, SyncResponseEnvelope}
use sync_engine_v.Wire.{JsonCodec}
use sync_engine_v.Row.{ReplicaSchemaContract, RowOperation}
use sync_engine_v.Client.Action.{Action}
use sync_engine_v.Client.Transport.{
  Fetch, FetchSyncTransportOptions, row_transport_options, create_fetch_sync_transport,
  create_split_fetch_sync_transport,
}

-- `SYNC_CLIENT_CONFIG_FORMAT_VERSION`
abbrev pub sync_client_config_format_version : ℕ
sync_client_config_format_version = 1

pub record SyncEndpointConfig : Type 0 where
  pub synchronize : Option String
  pub pull : Option String
  pub push : Option String

pub record SyncServiceWorkerConfig : Type 0 where
  pub url : String
  pub scope : Option String
  pub sync_tag : String

pub record GeneratedSyncClientConfig : Type 0 where
  pub format_version : ℕ
  pub database_name : String
  pub endpoints : SyncEndpointConfig
  pub schema : ReplicaSchemaContract
  pub service_worker : Option SyncServiceWorkerConfig

pub record CreateRowTransportFromConfigOptions (World : Type 0) : Type 0 where
  pub fetch : Option (Fetch World)
  pub headers : Action World (Dict String)
  pub credentials : Option String
  pub rejection_codec : Option (JsonCodec Json)

abbrev no_overrides : ProtocolLimitOverrides
no_overrides = record { maximum_proposals_per_request = none; maximum_entries_per_response = none }

module _ {World : Type 0} (precedes : String → String → Bool) (global : Option (Fetch World))
    (config : GeneratedSyncClientConfig) (options : CreateRowTransportFromConfigOptions World) where
  abbrev pub Transport : Type 0
  Transport =
      SyncRequestEnvelope RowOperation → Action World (SyncResponseEnvelope RowOperation Json)

  abbrev transport_options : FetchSyncTransportOptions World RowOperation RowOperation Json
  transport_options =
      row_transport_options precedes config.schema options.fetch options.headers options.credentials
        options.rejection_codec no_overrides

  abbrev pub single_transport : Option String → Result Transport
  single_transport none =
      err (plain "generated sync config must define either synchronize or pull/push endpoints")
  single_transport (some url) = create_fetch_sync_transport transport_options precedes global url

  -- the endpoints: both of pull and push, or neither and one for all
  abbrev pub transport_of : Option String → Option String → Option String → Result Transport
  transport_of none none synchronize = single_transport synchronize
  transport_of (some pull) (some push) synchronize =
      create_split_fetch_sync_transport transport_options precedes global
        (record { pull = pull; push = push })
  transport_of (some pull) none synchronize =
      err (plain "generated sync config must define both pull and push endpoints")
  transport_of none (some push) synchronize =
      err (plain "generated sync config must define both pull and push endpoints")

  unfoldable pub create_row_transport_from_config : Result Transport
  unfolding row_transport_options create_fetch_sync_transport create_split_fetch_sync_transport
  create_row_transport_from_config =
      transport_of config.endpoints.pull config.endpoints.push config.endpoints.synchronize
