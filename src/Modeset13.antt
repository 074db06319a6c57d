-- ===== src/Modeset13.antt =====
-- perftools/X/drm-howto/modeset13.c: modeset.c with a choice of the mode and another picture.
pub mod Setup
pub mod Draw
pub mod Main
pub mod Tests
