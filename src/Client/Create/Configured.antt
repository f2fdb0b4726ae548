-- ===== src/Client/Create/Configured.antt =====
-- src/client/config.ts: the client over IndexedDB that a generated configuration asks for.
use sync_engine_v.Base.{ℕ, String, Bool, Option, none, some}
use sync_engine_v.Json.{Json}
use sync_engine_v.Errors.{Result, ok, err}
use sync_engine_v.Protocol.{SyncRequestEnvelope, SyncResponseEnvelope}
use sync_engine_v.IndexedDb.{Payloads}
use sync_engine_v.Row.{RowOperation, ReplicaDatabaseState}
use sync_engine_v.Client.Action.{Action}
use sync_engine_v.Client.Transport.{Fetch}
use sync_engine_v.Client.Config.{
  GeneratedSyncClientConfig, CreateRowTransportFromConfigOptions, create_row_transport_from_config,
}
use sync_engine_v.Client.Create.{RowDatabase, ClientWorld, create_indexed_db_sync_client}

-- `transport_options` is what the options have of a transport from the configuration.
pub record CreateIndexedDbSyncClientFromConfigOptions (Outside : Type 0) : Type 0 where
  pub config : GeneratedSyncClientConfig
  pub transport :
      Option
        (SyncRequestEnvelope RowOperation → Action Outside (SyncResponseEnvelope RowOperation Json))
  pub transport_options : CreateRowTransportFromConfigOptions Outside
  pub stream_id : String
  pub maximum_entries : Option ℕ
  pub maximum_proposals : Option ℕ
  pub maximum_sync_rounds : Option ℕ
  pub operation_id : Action Outside String
  pub client_id : Option String
  pub payloads : Payloads ReplicaDatabaseState RowOperation RowOperation Json

module _ {Outside : Type 0} (locale_precedes precedes : String → String → Bool)
    (global : Option (Fetch Outside))
    (options : CreateIndexedDbSyncClientFromConfigOptions Outside) where
  -- `options.transport ?? createRowTransportFromConfig(…)`
  unfoldable pub configured_transport :
      Result
        (SyncRequestEnvelope RowOperation → Action Outside (SyncResponseEnvelope RowOperation Json))
  unfolding create_row_transport_from_config
  configured_transport = elim options.transport [
    | some transport ↦ ok transport
    | none ↦
        create_row_transport_from_config precedes global options.config options.transport_options
  ]

  unfoldable pub create_indexed_db_sync_client_from_config :
      String → RowDatabase Json → Outside → Result (ClientWorld Outside Json) × RowDatabase Json
  unfolding configured_transport create_indexed_db_sync_client
  create_indexed_db_sync_client_from_config created_client_id database outside =
      elim configured_transport [
        | err e ↦ (err e, database)
        | ok transport ↦
            create_indexed_db_sync_client locale_precedes precedes
              (record {
                schema = options.config.schema;
                stream_id = options.stream_id;
                transport = transport;
                maximum_entries = options.maximum_entries;
                maximum_proposals = options.maximum_proposals;
                maximum_sync_rounds = options.maximum_sync_rounds;
                operation_id = options.operation_id;
                database_name = options.config.database_name;
                client_id = options.client_id;
                payloads = options.payloads;
              })
              created_client_id database outside
      ]
