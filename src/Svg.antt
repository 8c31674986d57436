-- ===== src/Svg.antt =====
-- cpp/svgbuilder.cpp: every drawable becomes one SVG text.
pub mod Escape
pub mod Float
pub mod TextTags
pub mod Shape
pub mod Build
