-- ===== src/Pressure.antt =====
-- internal/pressure: the combined sampler and the watcher that fires when the disk stays low. A
-- memory ratio and the free gigabytes are floats in the source; here they are integers in a fixed
-- unit, billionths and bytes, and a threshold in GB stands for its 10^9 bytes.
pub mod Cooldown
pub mod Sustained
mod Tests
use noo_noo.Common.{
  Bool, List, Option, [], false, if◌then◌else◌, leb, length, ltb, none, not, some, suc, true, ℕ,
  ◌&&◌, ◌*◌, ◌++◌, ◌-◌, ◌/◌, ◌||◌, ◌∷◌,
}

pub record Reading : Type 0 where
  pub mem_ratio : ℕ
  pub free_disk : ℕ
  pub disk_measured : Bool

pub record Threshold : Type 0 where
  pub mem_high_ratio : ℕ
  pub disk_low_gb : ℕ
  pub sample_interval : ℕ
  pub debounce_window : ℕ

-- 60 minutes, in nanoseconds
abbrev pub trigger_cooldown : ℕ
trigger_cooldown = 3600000000000

abbrev pub no_reading : Reading
no_reading = record { mem_ratio = 0; free_disk = 0; disk_measured = false }

-- one round of the loop over the samplers
unfoldable pub merge : Reading → Reading → Reading
merge out r =
    let m = if ltb out.mem_ratio r.mem_ratio then r.mem_ratio else out.mem_ratio in
    if r.disk_measured && (not out.disk_measured || ltb r.free_disk out.free_disk)
    then record { mem_ratio = m; free_disk = r.free_disk; disk_measured = true }
    else record out { mem_ratio = m }

-- the first sampler that fails ends the sample; `none` is an error
unfoldable pub sample_from : Reading → List (Option Reading) → Option Reading
sample_from out [] = some out
sample_from out (none ∷ rs) = none
sample_from out (some r ∷ rs) = sample_from (merge out r) rs

unfoldable pub combined_sample : List (Option Reading) → Option Reading
combined_sample rs = sample_from no_reading rs

-- bufLen; an interval of 0 is a fault of the source's division, and 3 here
abbrev pub buf_len : Threshold → ℕ
buf_len th = let n = th.debounce_window / th.sample_interval in if ltb n 3 then 3 else n

-- `last_fire` is none for Go's zero time, since when more than any cooldown has passed
pub record Watcher : Type 0 where
  pub buf : List Bool
  pub last_fire : Option ℕ

abbrev pub idle_watcher : Watcher
idle_watcher = record { buf = []; last_fire = none }

unfoldable pub is_high : Threshold → Reading → Bool
is_high th r = r.disk_measured && leb r.free_disk (th.disk_low_gb * 1000000000)

abbrev pub drop_first : List Bool → List Bool
drop_first [] = []
drop_first (b ∷ bs) = bs

unfoldable pub push_sample : ℕ → Bool → List Bool → List Bool
push_sample n high bs = (if leb n (length bs) then drop_first bs else bs) ++ high ∷ []

abbrev pub count_high : List Bool → ℕ
count_high [] = 0
count_high (true ∷ bs) = suc (count_high bs)
count_high (false ∷ bs) = count_high bs

abbrev pub cooled : Option ℕ → ℕ → Bool
cooled none now = true
cooled (some t) now = ltb trigger_cooldown (now - t)

-- highCount / len(buf) >= 0.8
abbrev pub is_sustained : List Bool → Bool
is_sustained bs = leb (4 * length bs) (5 * count_high bs)

-- what the loop does with a window
unfoldable pub judge : Threshold → ℕ → List Bool → Watcher → Watcher × Bool
judge th now bs w =
    if ltb (length bs) (buf_len th)
    then (record w { buf = bs }, false)
    else if is_sustained bs && cooled w.last_fire now
    then (record { buf = bs; last_fire = some now }, true)
    else (record w { buf = bs }, false)

-- One tick of the loop at a time and with a sample: the new state, and whether onTrigger is called.
unfoldable pub watch_step : Threshold → ℕ → Option Reading → Watcher → Watcher × Bool
unfolding judge
watch_step th now none w = (w, false)
watch_step th now (some r) w = judge th now (push_sample (buf_len th) (is_high th r) w.buf) w

-- The times at which a run of the loop calls onTrigger.
unfoldable pub fires : Threshold → List (ℕ × Option Reading) → Watcher → List ℕ
fires th [] w = []
fires th ((now, r) ∷ ticks) w =
    let (w', fired) = watch_step th now r w in
    let rest = fires th ticks w' in if fired then now ∷ rest else rest
