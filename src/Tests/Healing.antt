-- ===== src/Tests/Healing.antt =====
-- The healer's loop at a concrete queue.
use cnp_v1_starter_kit.Prelude.{[], ◌∷◌, arith}
use cnp_v1_starter_kit.Ops.Draining.{Operations, run_healer, Drained, run_healer-Drained}
use cnp_v1_starter_kit.Tests.Ops.{uuid, clock_text, catalog, anomaly, empty, bridge}

abbrev queued : Operations
queued = record {
  detector = record empty { queue = anomaly ∷ anomaly ∷ [] };
  sent = [];
  actions = 0;
}

run_healer-Drained_example :
    Drained uuid clock_text catalog bridge
      (λ k. 400000000)
      0
      (anomaly ∷ anomaly ∷ [])
      queued
      (run_healer uuid clock_text catalog bridge (λ k. 400000000) 3 0 queued)
run_healer-Drained_example =
    run_healer-Drained uuid clock_text catalog bridge (λ k. 400000000) 3 0 queued (omega arith)
