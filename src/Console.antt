-- ===== src/Console.antt =====
-- cpp_console: the header library of texts, times, stop watches, accumulated times and trees.
-- A std::string is the list of its bytes. What the C++ library does is written out where it is used.
pub mod Text
pub mod Stime
pub mod Stree
