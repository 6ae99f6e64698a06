-- ===== src/Bisect.antt =====
-- src/hil_controller/bisect.py: find the first release on which a board broke.
-- `Version` parses a tag, `Releases` lists the candidates and picks the window, `Search` is the
-- binary search, `Runner` the tests of one release and the whole run; the other children prove.
pub mod Version
pub mod Releases
pub mod Sorted
pub mod Window
pub mod Search
pub mod Narrowing
pub mod Boundary
pub mod Runner
pub mod Verdicts
pub mod Whole
pub mod Tests
