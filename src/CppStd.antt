-- ===== src/CppStd.antt =====
-- What the agent uses of the C++ standard library on text and on containers.
pub mod Chars
pub mod Getline
pub mod Numbers
pub mod Printing
pub mod Regex
pub mod Stream
pub mod Reading
pub mod Keyed
pub mod Progress
pub mod Range
pub mod Map
