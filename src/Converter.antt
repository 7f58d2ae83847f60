-- ===== src/Converter.antt =====
-- libs/Converter: the command line of the external converter.
pub mod Command
