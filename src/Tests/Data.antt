-- ===== src/Tests/Data.antt =====
-- Records, figures and data files for the tests.
use personal_context.Base.{ℕ, Option, none, some, [], ◌∷◌}
use personal_context.Text.{Text, codes}
use personal_context.Time.{Time}
use personal_context.Repository.Types.{Record, RecordFigure, RecordDataFile}
use personal_context.Repository.Figures.{FigureTable}

-- A record that was updated and perhaps deleted at these times.
abbrev pub note_at : Time → Option Time → Record
note_at updated deleted = record {
  id = codes "r1";
  user_id = [];
  date = codes "2026-05-10";
  day_order = codes "a0";
  html_content = some (codes "<p>");
  notes = none;
  project_id = codes "p";
  source_device_id = codes "d";
  source_ref = none;
  git_remote_url = none;
  git_hash = none;
  created_at = 1000000;
  updated_at = updated;
  deleted_at = deleted;
}

abbrev pub figure : ℕ → Text → Text → Option Text → RecordFigure
figure n name key alt = record {
  id = n;
  record_id = codes "r1";
  filename = name;
  s3_key = key;
  alt_text = alt;
  created_at = 1000000;
}

abbrev pub plot : ℕ → Option Text → RecordFigure
plot n alt = figure n (codes "a.png") (codes "figures/r1/a.png") alt

abbrev pub map_of : ℕ → RecordFigure
map_of n = figure n (codes "b.png") (codes "figures/r1/b.png") none

abbrev pub samples : ℕ → ℕ → RecordDataFile
samples n size = record {
  id = n;
  record_id = codes "r1";
  filename = codes "x.csv";
  s3_key = codes "data/r1/x.csv";
  size = size;
  hash = codes "ab";
  description = none;
  created_at = 1000000;
}

abbrev pub table : FigureTable
table = record {
  rows = plot 1 (some (codes "old")) ∷ map_of 2 ∷ [];
  next_id = 3;
  record_ids = codes "r1" ∷ [];
}
