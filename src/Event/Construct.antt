-- ===== src/Event/Construct.antt =====
-- include/gevent.h: the constructor of EventEmitter, over that of include/gque.h for its two queues.
use opengcl.Prelude.{ℕ, suc, Option, List}
use opengcl.Que.{new_queue}
use opengcl.Event.{EventBlock, EventEmitter, event_name_length_max}

-- `sizeof(event_name_t)`, and `sizeof(event_block)` where a pointer has 8 bytes.
abbrev pub event_name_size : ℕ
event_name_size = suc event_name_length_max

abbrev pub event_block_size : ℕ
event_block_size = 32

unfoldable pub event_emitter : ℕ → ℕ → Option (ℕ → List ℕ) → Option (ℕ → EventBlock) → EventEmitter
event_emitter max_event_names max_listeners names listeners = record {
  m_names = new_queue max_event_names event_name_size names;
  m_listeners = new_queue max_listeners event_block_size listeners;
}
