-- ===== src/Atomic.antt =====
-- perftools/X/drm-howto/modeset-atomic.c: modesetting and page flips by atomic commits.
pub mod Program
pub mod Objects
pub mod Choice
pub mod Output
pub mod Draw
pub mod Main
pub mod Tests
