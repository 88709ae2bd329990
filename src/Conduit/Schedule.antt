-- ===== src/Conduit/Schedule.antt =====
-- `notificationRetryAfter`, `rewriteDelayIndex` and `notifierBackoff` of link/conduit.go, without the
-- variables that tests set. Times and durations are nanoseconds.
use khala_network.Common.{ℕ, zero, suc, ◌-◌, ◌*◌, List, [], ◌∷◌, length, if◌then◌else◌, leb}

abbrev pub second : ℕ
second = 1000000000

abbrev pub minute : ℕ
minute = 60000000000

-- `xs[i]`; the code keeps the index within the list.
abbrev pub element : ℕ → List ℕ → ℕ
element i [] = 0
element zero (x ∷ xs) = x
element (suc i) (x ∷ xs) = element i xs

abbrev pub retry_schedule : List ℕ
retry_schedule =
    (10 * minute)
    ∷ (20 * minute)
    ∷ (40 * minute)
    ∷ (80 * minute)
    ∷ (160 * minute)
    ∷ (320 * minute)
    ∷ []

-- `outstandingNotifications - 1`, kept within the schedule.
unfoldable pub rewrite_delay_index : ℕ → ℕ → ℕ
rewrite_delay_index outstanding schedule_length =
    let index = outstanding - 1 in if leb schedule_length index then schedule_length - 1 else index

unfoldable pub notification_retry_after : ℕ → ℕ
unfolding rewrite_delay_index
notification_retry_after outstanding =
    element (rewrite_delay_index outstanding (length retry_schedule)) retry_schedule

abbrev pub notifier_backoff : List ℕ
notifier_backoff =
    100000000 ∷ 300000000 ∷ second ∷ (3 * second) ∷ (10 * second) ∷ (30 * second) ∷ []

-- The delay after an attempt that failed, by its index from 1.
unfoldable pub failed_delay : ℕ → ℕ
failed_delay attempt_index =
    let index = attempt_index - 1 in
    element (if leb (length notifier_backoff) index then length notifier_backoff - 1 else index)
      notifier_backoff
