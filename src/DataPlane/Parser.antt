-- ===== src/DataPlane/Parser.antt =====
-- The parsing of a frame: header fields, and the parse functions of the main program.
pub mod Fields
pub mod Headers
