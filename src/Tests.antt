-- ===== src/Tests.antt =====
-- Concrete runs of the codecs.
pub mod Fixtures
pub mod Requests
pub mod Parsers
pub mod Results
pub mod Frames
pub mod Basics
pub mod Dispatching
pub mod Bridging
pub mod Paging
pub mod Serving
pub mod Configuring
