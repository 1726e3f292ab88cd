-- ===== src/Models/Tokens/Totals.antt =====
-- The totals over all models, and the order in which the map of statistics is read.
use mathlib.Core.List.{Permᴰ}
use lv_fixus.Common.{List, ◌≡◌, refl, ◌∙◌, ap}
use lv_fixus.Models.Tokens.{
  TokenUsageStats, TokenUsageTotals, zero_totals, add_stats, add_stats_swap, sum_stats,
  from_by_model,
}

sum_stats-perm :
    {xs ys : List TokenUsageStats} (t : TokenUsageTotals)
    → Permᴰ xs ys
    → sum_stats t xs ≡ sum_stats t ys
unfolding sum_stats
sum_stats-perm t Permᴰ.nil = refl
sum_stats-perm t (Permᴰ.cons {a = a} {l₂ = l} e p) =
    sum_stats-perm (add_stats t a) p ∙ ap (λ b. sum_stats (add_stats t b) l) e
sum_stats-perm t (Permᴰ.swap {a = a} {b = b} {l = l} p q) =
    rw (← p, ← q) (ap (λ u. sum_stats u l) (add_stats_swap t a b))
sum_stats-perm t (Permᴰ.trans p q) = sum_stats-perm t p ∙ sum_stats-perm t q

-- Two listings of the same statistics, in whatever order, have the same totals.
pub totals-perm :
    {xs ys : List TokenUsageStats}
    → Permᴰ xs ys
    → (from_by_model xs).totals ≡ (from_by_model ys).totals
unfolding from_by_model
totals-perm p = sum_stats-perm zero_totals p
