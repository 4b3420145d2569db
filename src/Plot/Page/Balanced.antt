-- ===== src/Plot/Page/Balanced.antt =====
-- runner/plot.py: the tags of the page between its scripts and its head.
use game_bench.Py.Text.{Text}
