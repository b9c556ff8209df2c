-- ===== src/Stats/Counting.antt =====
-- `Counters` of hex-net-core/src/stats.rs: totals and differences.
use hex_net.Common.{ℕ, ◌^◌, ◌<◌, ◌≡◌, refl, ap, ap₂, List, [], ◌∷◌, length, arith}
use hex_net.Stats.{Counters, merge, delta_since, merge_values, delta_values}

-- Values that fit in a word.
abbrev pub AreWords : List ℕ → Type 0
AreWords [] = Unit {0}
AreWords (v ∷ values) = (v < 2 ^ 64) × AreWords values

merge-delta_values :
    (values previous : List ℕ)
    → length values ≡ length previous
    → AreWords values
    → AreWords previous
    → merge_values previous (delta_values values previous) ≡ values
merge-delta_values [] [] len words words' = refl
merge-delta_values [] (p ∷ previous) len words words' = absurd (omega arith)
merge-delta_values (v ∷ values) [] len words words' = absurd (omega arith)
merge-delta_values (v ∷ values) (p ∷ previous) len (word, words) (word', words') =
    ap₂ (λ x xs. x ∷ xs) (omega arith)
      (merge-delta_values values previous (omega arith) words words')

-- For two sets of counters of the same length whose values fit in 64 bits, the totals since the earlier
-- one, merged into it, are the later one, however often a value wrapped around in between.
pub merge-delta_since :
    (c previous : Counters)
    → length c.values ≡ length previous.values
    → AreWords c.values
    → AreWords previous.values
    → merge previous (delta_since c previous) ≡ c
unfolding merge delta_since
merge-delta_since c previous len words words' =
    ap (λ (v : List ℕ). record { values = v })
      (merge-delta_values c.values previous.values len words words')
