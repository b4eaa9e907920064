-- ===== src/Text.antt =====
-- Texts: the string functions of src/kernel/utils/utils.cpp and the formatter of
-- src/kernel/misc/printf.cpp. A C string is the list of its characters before the terminating NUL,
-- none of which is 0.
pub mod HexDump
pub mod Serial
pub mod Strings
pub mod Compare
pub mod Numbers
pub mod Format
pub mod Printing
mod Tests
