-- ===== src/Modeset.antt =====
-- perftools/X/drm-howto/modeset.c, the single-buffered DRM mode-setting program.
pub mod Kernel
pub mod Crtc
pub mod Setup
pub mod Draw
pub mod Main
pub mod Tests
