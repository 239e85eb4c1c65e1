-- ===== src/Tools/Report.antt =====
-- The last statistics of `main` in tools/epsub.c, 677-703, over the contexts of the threads.
pub mod Merged
use mumq.Base.{ℕ, ◌/◌, ◌||◌, List, [], ◌∷◌, map, ◌==◌, ltb, if◌then◌else◌}
use mumq.Base.Words.{add64}
use mumq.Tools.Measure.{Times, no_times, ThreadContext}

pub add_times : Times → Times → Times
add_times t total = record {
  sum = add64 total.sum t.sum;
  min = if total.min == 0 || ltb t.min total.min then t.min else total.min;
  max = if ltb total.max t.max then t.max else total.max;
}

pub total_times : List Times → Times → Times
unfolding add_times
total_times [] total = total
total_times (t ∷ ts) total = total_times ts (add_times t total)

-- `avg`, `min` and `max` as they are printed.
pub record Report : Type 0 where
  pub avg : ℕ
  pub min : ℕ
  pub max : ℕ

abbrev pub report_of : ℕ → Times → Report
report_of total_concurrency t = record { avg = t.sum / total_concurrency; min = t.min; max = t.max }

-- The times to connect, and from there to the first message.
pub report : ℕ → List ThreadContext → Report × Report
unfolding total_times
report total_concurrency g_ctx = (
  report_of total_concurrency (total_times (map (λ ctx. ctx.con_time) g_ctx) no_times),
  report_of total_concurrency (total_times (map (λ ctx. ctx.rcv_con_time) g_ctx) no_times),
)
