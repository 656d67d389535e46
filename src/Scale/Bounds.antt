-- ===== src/Scale/Bounds.antt =====
-- scale/autoscaler.py: the decisions of the autoscaler.
use reliable_ai_agents.Prelude.{ℕ, ◌+◌, ◌*◌, ◌≤◌, ◌<◌, ◌≡◌, ◌⊎◌, inl, inr, refl, arith}
use reliable_ai_agents.Scale.{Config, ceil_div, desired_replicas}

mul_mono : (b c n : ℕ) → c ≤ n → b * c ≤ b * n
mul_mono b c n h = grind arith

ceil_div_enough : (a b : ℕ) → 0 < b → a ≤ b * ceil_div a b
ceil_div_enough a b h = grind arith

wanted-agents :
    (cfg : Config) (agents backlog n : ℕ)
    → 0 < cfg.per_agent
    → n ≡ desired_replicas cfg agents backlog
    → n < cfg.max_replicas
    → (agents ≡ 0) ⊎ (ceil_div agents cfg.per_agent ≤ n)
unfolding desired_replicas
wanted-agents cfg agents backlog n ratio e below = ground arith

wanted-backlog :
    (cfg : Config) (agents backlog n : ℕ)
    → n ≡ desired_replicas cfg agents backlog
    → n < cfg.max_replicas
    → (backlog ≡ 0) ⊎ (ceil_div backlog 50 + 1 ≤ n)
unfolding desired_replicas
wanted-backlog cfg agents backlog n e below = ground arith

served : (a b n : ℕ) → 0 < b → (a ≡ 0) ⊎ (ceil_div a b ≤ n) → a ≤ b * n
served a b n h (inl z) = omega arith
served a b n h (inr le) =
    let enough : a ≤ b * ceil_div a b = ceil_div_enough a b h in
    let grows : b * ceil_div a b ≤ b * n = mul_mono b (ceil_div a b) n le in omega arith

fifties : (a n : ℕ) → (a ≡ 0) ⊎ (ceil_div a 50 + 1 ≤ n) → (a ≡ 0) ⊎ (a + 50 ≤ 50 * n)
fifties a n (inl z) = inl z
fifties a n (inr le) = inr (omega arith)

-- Below the ceiling the decision serves every active agent at the configured ratio, and one more
-- instance than there are batches of 50 stranded leases; at the ceiling neither need hold.
pub desired_replicas_serve :
    (cfg : Config) (agents backlog : ℕ)
    → 0 < cfg.per_agent
    → desired_replicas cfg agents backlog < cfg.max_replicas
    → (agents ≤ cfg.per_agent * desired_replicas cfg agents backlog)
      × ((backlog ≡ 0) ⊎ (backlog + 50 ≤ 50 * desired_replicas cfg agents backlog))
desired_replicas_serve cfg agents backlog ratio below =
    let n = desired_replicas cfg agents backlog in
    (
      served agents cfg.per_agent n ratio (wanted-agents cfg agents backlog n ratio refl below),
      fifties backlog n (wanted-backlog cfg agents backlog n refl below),
    )
