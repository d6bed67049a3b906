-- ===== src/Withered/Protocol.antt =====
-- withered/server/domain/protocol: the wire format between client and session.
pub mod Varint
pub mod RoundTrip
pub mod Messages
pub mod Parsing
pub mod Payload
pub mod PayloadLaws
