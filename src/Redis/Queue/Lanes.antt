-- ===== src/Redis/Queue/Lanes.antt =====
-- The lanes that jobs go to, and the depths that are read from them.
use taskfire.Prelude.{ℕ, ◌≡◌, ◌≢◌, arith}
use taskfire.Job.{JobPriority, high, medium, low, priority_label}
use taskfire.Redis.Member.{Key, queue_high, queue_medium, queue_low, delayed, dlq}
use taskfire.Redis.Queue.{lane_key}

-- The lane of each label.
abbrev pub lane_of : JobPriority → Key
lane_of high = queue_high
lane_of medium = queue_medium
lane_of low = queue_low

-- Every priority number, listed or not, goes to the lane of the label that the API shows for it.
pub lane_key-priority_label : (n : ℕ) → lane_key n ≡ lane_of (priority_label n)
unfolding lane_key priority_label
lane_key-priority_label n = ground arith

-- No priority goes to the delayed set.
pub lane_key-ne-delayed : (n : ℕ) → lane_key n ≢ delayed
unfolding lane_key
lane_key-ne-delayed n e = ground arith

pub lane_key-ne-dlq : (n : ℕ) → lane_key n ≢ dlq
unfolding lane_key
lane_key-ne-dlq n e = ground arith
