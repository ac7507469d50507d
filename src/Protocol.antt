-- ===== src/Protocol.antt =====
-- The packed structs that go over the wire,
-- urg_node/include/uam/protocol_types/uam_protocol_types.h.
pub mod Layout
pub mod Header
pub mod Sensing
pub mod Status
pub mod Replies
pub mod Area
pub mod Packet
pub mod Sizes
