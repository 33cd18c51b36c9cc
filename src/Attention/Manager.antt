-- ===== src/Attention/Manager.antt =====
-- zhongshu-core/src/agent/attention_manager.rs: `AttentionManager`, the event bus being the list of what
-- was published. A report is its level (attention.rs) and the rest of its fields, which are passed on.
use zhongshu.Prelude.{ℕ, List, [], ◌∷◌, ◌++◌, if◌then◌else◌, leb, length}

pub data AttentionLevel : Type 0 where
  ignore : AttentionLevel
  digest : AttentionLevel
  notify : AttentionLevel
  immediate : AttentionLevel

pub record Report {ℓ} (Content : Type ℓ) : Type ℓ where
  pub attention : AttentionLevel
  pub content : Content

module _ {ℓ} (Content : Type ℓ) where
  pub data AttentionEvent : Type ℓ where
    interrupt : Report Content → AttentionEvent
    notify_user : Report Content → AttentionEvent
    digested : Report Content → AttentionEvent

  pub record AttentionManager : Type ℓ where
    pub published : List AttentionEvent
    pub digest_queue : List (Report Content)
    pub capacity : ℕ

  -- What `rx.recv()` gives.
  pub data Received : Type ℓ where
    worker_report : Report Content → Received
    other_event : Received
    lagged : ℕ → Received
    closed : Received

module _ {ℓ} {Content : Type ℓ} where
  -- `AttentionManager::new` on a bus on which nothing was published.
  abbrev pub new_manager : AttentionManager Content
  new_manager = record { published = []; digest_queue = []; capacity = 100 }

  abbrev pub drain_digest :
      AttentionManager Content → List (Report Content) × AttentionManager Content
  drain_digest m = (m.digest_queue, record m { digest_queue = [] })

  -- `remove(0)`; it would panic on an empty queue, which is not over its capacity unless that is 0.
  unfoldable pub remove_first : List (Report Content) → List (Report Content)
  remove_first [] = []
  remove_first (report ∷ queue) = queue

  unfoldable pub queue_report : ℕ → Report Content → List (Report Content) → List (Report Content)
  queue_report capacity report queue =
      (if leb capacity (length queue) then remove_first queue else queue) ++ (report ∷ [])

  unfoldable pub process_at :
      AttentionLevel → Report Content → AttentionManager Content → AttentionManager Content
  process_at immediate report m = record m {
    published = m.published ++ (AttentionEvent.interrupt report ∷ []);
  }
  process_at notify report m = record m {
    published = m.published ++ (AttentionEvent.notify_user report ∷ []);
  }
  process_at digest report m = record m {
    digest_queue = queue_report m.capacity report m.digest_queue;
  }
  process_at ignore report m = m

  unfoldable pub process : Report Content → AttentionManager Content → AttentionManager Content
  process report m = process_at report.attention report m

  -- The loop of `spawn`.
  unfoldable pub spawn_loop :
      List (Received Content) → AttentionManager Content → AttentionManager Content
  spawn_loop [] m = m
  spawn_loop (worker_report report ∷ later) m = spawn_loop later (process report m)
  spawn_loop (other_event ∷ later) m = spawn_loop later m
  spawn_loop (lagged n ∷ later) m = spawn_loop later m
  spawn_loop (closed ∷ later) m = m
