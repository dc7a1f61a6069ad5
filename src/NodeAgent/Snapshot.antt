-- ===== src/NodeAgent/Snapshot.antt =====
-- The configuration snapshot: packages/contracts/src/node-agent.ts. An identifier, a credential
-- (each a UUID) and a hash is a number. An instant is what `Date.parse` gives for a date's text:
-- its milliseconds since the epoch, or `none` for NaN, with which no comparison holds.
use Prim.Native.String.{String}
use vpnplatform.Base.{ℕ, Bool, true, ◌&&◌, Option, none, some, List, ltb, leb, ◌==◌}
use vpnplatform.Access.{GrantStatus}

abbrev pub Instant : Type 0
Instant = Option ℕ

pub data AddressKind : Type 0 where
  hostname ipv4 ipv6 : AddressKind

pub data ProtocolKind : Type 0 where
  vless wireguard : ProtocolKind

pub data TransportKind : Type 0 where
  tcp websocket grpc : TransportKind

pub data SecurityKind : Type 0 where
  no_security tls reality : SecurityKind

pub record ConnectionRoute : Type 0 where
  pub activation_version : ℕ
  pub endpoint_id : ℕ
  pub host : String
  pub address_kind : AddressKind
  pub port : ℕ
  pub endpoint_priority : ℕ
  pub profile_id : ℕ
  pub profile_key : ℕ
  pub version : ℕ
  pub protocol_kind : ProtocolKind
  pub transport_kind : TransportKind
  pub security_kind : SecurityKind
  pub profile_priority : ℕ
  pub tls_server_name : String
  pub display_name : String

pub record Grant : Type 0 where
  pub id : ℕ
  pub status : GrantStatus
  pub expires_at : Instant
  pub desired_version : ℕ
  pub applied_version : ℕ
  pub revoked_at : Option Instant
  pub data_plane_credential : Option ℕ

pub record Acknowledgement : Type 0 where
  pub node_sync_job_id : ℕ
  pub target_version : ℕ
  pub snapshot_hash : ℕ

pub record Snapshot : Type 0 where
  pub desired_config_version : ℕ
  pub applied_config_version : ℕ
  pub pending_acknowledgement : Option Acknowledgement
  pub grants : List Grant
  pub routes : List ConnectionRoute

abbrev acknowledgement_fits : Snapshot → Option Acknowledgement → Bool
acknowledgement_fits s none = true
acknowledgement_fits s (some a) =
    a.target_version == s.desired_config_version
    && ltb s.applied_config_version s.desired_config_version

-- The `superRefine` of the snapshot's schema.
unfoldable pub snapshot_valid : Snapshot → Bool
snapshot_valid s =
    leb s.applied_config_version s.desired_config_version
    && acknowledgement_fits s s.pending_acknowledgement
