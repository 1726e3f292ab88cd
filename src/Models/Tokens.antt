-- ===== src/Models/Tokens.antt =====
-- Token usage of src/models.rs: the statistics of a model, and their totals over all models. `i64`
-- sums wrap.
pub mod Totals
use lv_fixus.Common.{String, List, [], ◌∷◌, ◌≡◌}
use lv_fixus.Common.Int.{ℤ, pos, add_i64, add_i64_swap}

pub record TokenUsageStats : Type 0 where
  pub model : String
  pub call_count : ℤ
  pub prompt_tokens : ℤ
  pub completion_tokens : ℤ
  pub total_tokens : ℤ

pub record TokenUsageTotals : Type 0 where
  pub call_count : ℤ
  pub prompt_tokens : ℤ
  pub completion_tokens : ℤ
  pub total_tokens : ℤ

pub record TokenUsageResponse : Type 0 where
  pub by_model : List TokenUsageStats
  pub totals : TokenUsageTotals

abbrev pub zero_totals : TokenUsageTotals
zero_totals = record {
  call_count = pos 0;
  prompt_tokens = pos 0;
  completion_tokens = pos 0;
  total_tokens = pos 0;
}

-- one round of the loop of `from_by_model`
unfoldable pub add_stats : TokenUsageTotals → TokenUsageStats → TokenUsageTotals
add_stats t s = record {
  call_count = add_i64 t.call_count s.call_count;
  prompt_tokens = add_i64 t.prompt_tokens s.prompt_tokens;
  completion_tokens = add_i64 t.completion_tokens s.completion_tokens;
  total_tokens = add_i64 t.total_tokens s.total_tokens;
}

unfoldable pub sum_stats : TokenUsageTotals → List TokenUsageStats → TokenUsageTotals
sum_stats t [] = t
sum_stats t (s ∷ rest) = sum_stats (add_stats t s) rest

unfoldable pub from_by_model : List TokenUsageStats → TokenUsageResponse
unfolding sum_stats
from_by_model by_model = record { by_model = by_model; totals = sum_stats zero_totals by_model }

add_stats_swap :
    (t : TokenUsageTotals) (a b : TokenUsageStats)
    → add_stats (add_stats t a) b ≡ add_stats (add_stats t b) a
unfolding add_stats
add_stats_swap t a b = λ i. record {
  call_count = add_i64_swap t.call_count a.call_count b.call_count i;
  prompt_tokens = add_i64_swap t.prompt_tokens a.prompt_tokens b.prompt_tokens i;
  completion_tokens = add_i64_swap t.completion_tokens a.completion_tokens b.completion_tokens i;
  total_tokens = add_i64_swap t.total_tokens a.total_tokens b.total_tokens i;
}
