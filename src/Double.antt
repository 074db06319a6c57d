-- ===== src/Double.antt =====
-- perftools/X/drm-howto/modeset-double-buffered.c: mode-setting with two framebuffers to a device.
pub mod Setup
pub mod Draw
pub mod Main
pub mod Tests
