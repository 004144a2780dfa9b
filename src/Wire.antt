-- ===== src/Wire.antt =====
-- Byte streams: the big-endian lengths that the framings share, and the rule for decoders that
-- are fed a stream in chunks.
pub mod BigEndian
pub mod Stream
