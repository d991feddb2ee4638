-- ===== src/Names.antt =====
-- The names under which ROS topics, services and types travel in DDS: namespace_prefix.cpp,
-- demangle.cpp, and the functions of DDSTopic.cpp and Service.cpp that build names.
pub mod Prefix
pub mod Mangle
pub mod Demangle
pub mod Topics
