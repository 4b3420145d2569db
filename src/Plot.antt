-- ===== src/Plot.antt =====
-- runner/plot.py: the report, one child for each part of the file.
mod Tests
pub mod Escape
pub mod Markup
pub mod Charts
pub mod Axis
pub mod Load
pub mod Series
pub mod Table
pub mod Timeline
pub mod Svg
pub mod Cards
pub mod Page
pub mod Render
pub mod Client
