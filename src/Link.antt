-- ===== src/Link.antt =====
-- The client library (src/modem_interface.cpp) and the node (src/ros_node.cpp) together.
pub mod Sending
pub mod Receiving
pub mod Joint
