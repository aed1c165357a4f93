-- ===== src/Protocol.antt =====
-- crates/triptorrent-protocol/src/lib.rs: the Testnet v1 messages and their binary codec.
pub mod Availability
pub mod Writer
pub mod Reader
pub mod Fields
pub mod Identifier
pub mod Application
pub mod Requests
pub mod Responses
mod Tests
use triptorrent.Base.{ℕ, Option, List, ◌*◌}
use triptorrent.Base.Bytes.{Bytes}
use triptorrent.Core.{Manifest, Chunk}
use Prim.Native.String.{String}
use Availability.{PieceAvailability}

abbrev pub max_application_message_bytes : ℕ
max_application_message_bytes = 65519

abbrev pub max_overlay_message_bytes : ℕ
max_overlay_message_bytes = 256 * 1024

abbrev pub max_advertised_content_ids : ℕ
max_advertised_content_ids = 256

abbrev pub max_error_text_bytes : ℕ
max_error_text_bytes = 1024

abbrev pub max_capabilities : ℕ
max_capabilities = 8

abbrev pub max_discovery_routes : ℕ
max_discovery_routes = 16

abbrev pub max_testnet_manifest_chunks : ℕ
max_testnet_manifest_chunks = 2036

-- The message domains of the header.
abbrev pub domain_application : ℕ
domain_application = 1

abbrev pub domain_overlay_request : ℕ
domain_overlay_request = 2

abbrev pub domain_overlay_response : ℕ
domain_overlay_response = 3

-- A `String` is the list of its UTF-8 bytes.
pub data Message : Type 0 where
  request : Bytes → Message
  manifest : Manifest → Message
  chunk : Chunk → Message
  complete : Message
  error : Bytes → Message
  swarm_request : Bytes → Message
  swarm_manifest : Manifest → PieceAvailability → Message
  chunk_request chunk_unavailable : ℕ → Message
  swarm_complete : Message

pub data PeerCapability : Type 0 where
  relayed_transfer_v1 swarm_transfer_v1 : PeerCapability

pub record PeerAdvertisement : Type 0 where
  pub peer_id : Bytes
  pub public_key : Bytes
  pub capabilities : List PeerCapability
  pub content_ids : List Bytes

pub record RelayAdvertisement : Type 0 where
  pub relay_id : Bytes
  pub address : Bytes

pub record RouteAssignment : Type 0 where
  pub provider_id : Bytes
  pub provider_public_key : Bytes
  pub relay_id : Bytes
  pub relay_address : Bytes
  pub route : Bytes

pub data OverlayRequest : Type 0 where
  register_peer : PeerAdvertisement → OverlayRequest
  heartbeat_peer poll_peer : Bytes → OverlayRequest
  register_relay : RelayAdvertisement → OverlayRequest
  heartbeat_relay discover : Bytes → OverlayRequest
  discover_providers : Bytes → ℕ → OverlayRequest
  report_relay_failure : Bytes → OverlayRequest
  health : OverlayRequest

pub data OverlayResponse : Type 0 where
  registered : ℕ → OverlayResponse
  assignment route_found : Option RouteAssignment → OverlayResponse
  routes : List RouteAssignment → OverlayResponse
  acknowledged : OverlayResponse
  failure : Bytes → OverlayResponse

pub data ProtocolError : Type 0 where
  malformed : String → ProtocolError
  unsupported_version : ℕ → ProtocolError
  wrong_network : Bytes → ProtocolError
  unsupported_capability unknown_message : ℕ → ProtocolError
  invalid_message : String → ProtocolError
  message_too_large : ℕ → ProtocolError
