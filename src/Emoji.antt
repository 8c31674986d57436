-- ===== src/Emoji.antt =====
-- cpp/emoji_renderer/emoji_renderer.cpp: what the renderer computes itself.
pub mod Base64
pub mod Bitmap
pub mod Float
pub mod FreeType
pub mod Faces
pub mod Measure
pub mod Renderer
pub mod Request
