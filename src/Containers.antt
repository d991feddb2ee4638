-- ===== src/Containers.antt =====
-- `std::map`, `std::set` and `std::multiset` as lists in ascending order, which is the order of
-- iteration. Erasing takes away every entry with the key, which in a map is one.
pub mod Map
pub mod Set
pub mod MultiSet
