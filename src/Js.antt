-- ===== src/Js.antt =====
-- What the cards use of JavaScript and of the browser's standard library: exceptions, numbers,
-- typed arrays, text encoding and the random source.
pub mod Result
pub mod Number
pub mod Bytes
pub mod Text
pub mod Entropy
pub mod Strings
