-- ===== src/Db/Slots/Bounds.antt =====
-- How many streams run at once.
use sql_cli.Base.{
  ap, arith, none, pos, refl, some, subst, suc, sym, zero, ℕ, ℤ, ◌+◌, ◌-◌, ◌<◌, ◌↔◌, ◌∙◌, ◌≡◌, ◌≤ℤ◌,
}
use sql_cli.Config.{Config}
use sql_cli.Db.Slots.{
  StreamRun, StreamStep, Streams, acquire_concurrency_slot, and_then, initially, is_refused,
  producer_ends, release_concurrency_slot, starts,
}
use sql_cli.Db.Types.{Error, max_concurrent}

-- Where the maximum is positive, the field counts the goroutines, and they are not more than it.
record Counts (cfg : Config) (s : Streams) : Type 0 where
  counted : s.active ≡ pos s.running
  bounded : pos s.running ≤ℤ cfg.max_concurrent_queries

acquire_some :
    (cfg : Config) (n : ℕ) {a : ℤ} {e : Error}
    → acquire_concurrency_slot cfg (pos n) ≡ (a, some e)
    → (a ≡ pos n)
      × (cfg.max_concurrent_queries ≤ℤ pos n)
      × (e ≡ max_concurrent cfg.max_concurrent_queries)
unfolding acquire_concurrency_slot
acquire_some cfg n h = (ground arith, ground arith, ground arith)

acquire_none :
    (cfg : Config) (n : ℕ) {a : ℤ}
    → pos 1 ≤ℤ cfg.max_concurrent_queries
    → acquire_concurrency_slot cfg (pos n) ≡ (a, none)
    → (a ≡ pos (n + 1)) × (pos (n + 1) ≤ℤ cfg.max_concurrent_queries)
unfolding acquire_concurrency_slot
acquire_none cfg n on h = (ground arith, ground arith)

release_on :
    (cfg : Config) (n : ℕ)
    → pos 1 ≤ℤ cfg.max_concurrent_queries
    → 0 < n
    → release_concurrency_slot cfg (pos n) ≡ pos (n - 1)
unfolding release_concurrency_slot
release_on cfg zero on h = absurd (omega (arith, h))
release_on cfg (suc n) on h = ground arith

StreamStep-Counts :
    {cfg : Config} {s s' : Streams}
    → pos 1 ≤ℤ cfg.max_concurrent_queries
    → Counts cfg s
    → StreamStep cfg s s'
    → Counts cfg s'
StreamStep-Counts {cfg} {s} {s'} on c (starts a h e) =
    let got =
      acquire_none cfg s.running on (ap (acquire_concurrency_slot cfg) (sym c.counted) ∙ h) in
    subst (Counts cfg) (sym e) (record { counted = got.0; bounded = got.1 })
StreamStep-Counts {cfg} {s} {s'} on c (is_refused a x h e) =
    let got = acquire_some cfg s.running (ap (acquire_concurrency_slot cfg) (sym c.counted) ∙ h) in
    subst (Counts cfg) (sym e) (record { counted = got.0; bounded = c.bounded })
StreamStep-Counts {cfg} {s} {s'} on c (producer_ends h e) = subst (Counts cfg) (sym e) (record {
  counted = ap (release_concurrency_slot cfg) c.counted ∙ release_on cfg s.running on h;
  bounded = let b = c.bounded in omega arith;
})

StreamRun-Counts :
    {cfg : Config} {s : Streams}
    → pos 1 ≤ℤ cfg.max_concurrent_queries
    → StreamRun cfg s
    → Counts cfg s
StreamRun-Counts on initially = record { counted = refl; bounded = omega arith }
StreamRun-Counts on (and_then r st) = StreamStep-Counts on (StreamRun-Counts on r) st

acquire-refuses_iff :
    (cfg : Config) (n : ℕ)
    → pos 1 ≤ℤ cfg.max_concurrent_queries
    → (acquire_concurrency_slot cfg (pos n)
        ≡ (pos n, some (max_concurrent cfg.max_concurrent_queries)))
      ↔ (cfg.max_concurrent_queries ≤ℤ pos n)
unfolding acquire_concurrency_slot
acquire-refuses_iff cfg n on = (λ h. ground arith, λ h. ground arith)

-- However streams start and end, where the maximum is positive no more of them run at once than it
-- says, and one more is refused exactly while as many run.
pub StreamRun-bounds :
    {cfg : Config} {s : Streams}
    → pos 1 ≤ℤ cfg.max_concurrent_queries
    → StreamRun cfg s
    → (pos s.running ≤ℤ cfg.max_concurrent_queries)
      × ((acquire_concurrency_slot cfg s.active
            ≡ (s.active, some (max_concurrent cfg.max_concurrent_queries)))
          ↔ (cfg.max_concurrent_queries ≤ℤ pos s.running))
StreamRun-bounds {cfg} {s} on r =
    let c = StreamRun-Counts on r in
    (c.bounded, rw c.counted (acquire-refuses_iff cfg s.running on))
