-- ===== src/Encoding.antt =====
-- The codecs of Python's standard library that the program calls: base64, hexadecimal, UTF-8 and
-- decimal numbers.
pub mod Base64
pub mod Hex
pub mod Utf8
pub mod Decimal
pub mod Integer
