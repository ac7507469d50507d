-- ===== src/Worker/Agreement.antt =====
-- The two ways in which a worker of urg_node/include/uam/workers decodes a reply, overlaid on the struct
-- and from the text, side by side.
pub mod Members
pub mod Sensing
pub mod StatusData
pub mod Replies
