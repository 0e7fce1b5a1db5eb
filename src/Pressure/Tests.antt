-- ===== src/Pressure/Tests.antt =====
-- Runs of the watcher, and the theorems at concrete inputs.
use noo_noo.Pressure.{
  Reading, Threshold, combined_sample, fires, idle_watcher, is_high, merge, sample_from,
}
use noo_noo.Pressure.Sustained.{fires_low}
use noo_noo.Common.{List, Option, [], false, refl, some, true, ℕ, ◌++◌, ◌∷◌, ◌≡◌}

-- fifty gigabytes, a minute between samples, a window of three
abbrev limits : Threshold
limits = record {
  mem_high_ratio = 900000000;
  disk_low_gb = 50;
  sample_interval = 60;
  debounce_window = 180;
}

abbrev low_disk : Reading
low_disk = record { mem_ratio = 0; free_disk = 10000000000; disk_measured = true }

-- memory alone, and no disk sampler
abbrev no_disk : Reading
no_disk = record { mem_ratio = 990000000; free_disk = 0; disk_measured = false }

abbrev lows : List (ℕ × Option Reading)
lows = (1, some low_disk) ∷ (2, some low_disk) ∷ []

merges :
    combined_sample (some no_disk ∷ some low_disk ∷ [])
    ≡ some (record { mem_ratio = 990000000; free_disk = 10000000000; disk_measured = true })
unfolding combined_sample sample_from merge
merges = refl

fires_low_example : fires limits (lows ++ (3, some low_disk) ∷ []) idle_watcher ≡ 3 ∷ []
unfolding is_high
fires_low_example = fires_low limits lows 3 low_disk (refl, (refl, tt)) refl refl
