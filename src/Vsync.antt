-- ===== src/Vsync.antt =====
-- perftools/X/drm-howto/modeset-vsync.c: mode-setting with page flips at the vertical blank.
pub mod Host
pub mod Draw
pub mod Cleanup
pub mod Main
mod Tests
