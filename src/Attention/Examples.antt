-- ===== src/Attention/Examples.antt =====
-- Reports that are more than a queue holds, on which the theorem about the queue is put to use.
use zhongshu.Prelude.{ℕ, List, [], ◌∷◌, ◌++◌, length, ◌≡◌, ◌≤◌, refl, arith}
use zhongshu.Attention.Manager.{
  AttentionLevel, digest, immediate, Report, AttentionManager, Received, worker_report, lagged,
  closed, process_at, process, spawn_loop, queue_report, remove_first, new_manager, drain_digest,
}
use zhongshu.Attention.Latest.{latest}
use zhongshu.Attention.Queue.{heard, digests, events, spawn_loop_keeps}

abbrev report_at : AttentionLevel → ℕ → Report ℕ
report_at level n = record { attention = level; content = n }

-- A manager whose queue is full.
abbrev full_manager : AttentionManager ℕ
full_manager = record new_manager {
  digest_queue = report_at digest 1 ∷ report_at digest 2 ∷ [];
  capacity = 2;
}

abbrev four_messages : List (Received ℕ)
four_messages =
    worker_report (report_at digest 3)
    ∷ worker_report (report_at immediate 4)
    ∷ lagged 7
    ∷ closed
    ∷ []

oldest_dropped :
    (drain_digest (spawn_loop four_messages full_manager)).0
    ≡ report_at digest 2 ∷ report_at digest 3 ∷ []
unfolding spawn_loop process process_at queue_report remove_first
oldest_dropped = refl

spawn_loop_keeps_example :
    ((spawn_loop four_messages full_manager).digest_queue
      ≡ latest 2 (full_manager.digest_queue ++ digests (heard four_messages)))
    × ((spawn_loop four_messages full_manager).published ≡ [] ++ events (heard four_messages))
    × (length (spawn_loop four_messages full_manager).digest_queue ≤ 2)
spawn_loop_keeps_example = spawn_loop_keeps four_messages full_manager (omega arith) (omega arith)
