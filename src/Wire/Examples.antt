-- ===== src/Wire/Examples.antt =====
-- Runs of the encoders and decoders on concrete bytes, and the theorems at concrete inputs.
mod Primitives
mod Messages
