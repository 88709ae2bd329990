-- ===== src/Examples/Chat.antt =====
-- The gateway at work: posts, the queue, the limiter and the status lines.
use khala_network.Common.{ℕ, ◌≤◌, ◌+◌, ◌≡◌, refl, lit, List, [], ◌∷◌, none, true, false, arith}
use khala_network.Rolling.{
  attempt, delay, run, count, in_window, Forward, run_bounded, attempt-delay,
}
use khala_network.Gateway.Split.{Runes, split_message}
use khala_network.Gateway.Posts.{OutItem}
use khala_network.Gateway.Queue.{
  Sender, sender, enqueue, is_inflight, empty_sender, relay, start, step,
}
use khala_network.Gateway.Once.{pending, queued_once}
use khala_network.Gateway.Status.{unset, Snapshots, StatusRecord, status_record}
use khala_network.Gateway.Spacing.{told, Spaced, told-Spaced}

abbrev asked : List ℕ
asked = 1 ∷ 2 ∷ 3 ∷ 12 ∷ []

run_bounded_example : count (in_window 10 0) (run 2 10 [] [] asked) ≤ 2
unfolding Forward
run_bounded_example =
    run_bounded 2 10 0 asked (omega arith, (omega arith, (omega arith, (omega arith, tt)))) 0

refused : attempt 2 10 3 (1 ∷ 2 ∷ []) ≡ (false, 1 ∷ 2 ∷ [])
unfolding attempt
refused = refl

attempt-delay_example : (attempt 2 10 (3 + delay 10 3 (1 ∷ 2 ∷ [])) (1 ∷ 2 ∷ [])).0 ≡ true
attempt-delay_example =
    attempt-delay 2 10 3 (1 ∷ 2 ∷ []) (1 ∷ 2 ∷ []) (omega arith) (omega arith) refused

-- "\nabc", "d"
abbrev lines : Runes
lines = 10 ∷ 97 ∷ 98 ∷ 99 ∷ 10 ∷ 100 ∷ []

-- A text that begins with a newline, before a line that does not fit after it: the first piece is empty.
leading_newline : split_message lines 3 ≡ [] ∷ (97 ∷ 98 ∷ 99 ∷ []) ∷ (100 ∷ []) ∷ []
unfolding split_message
leading_newline = refl

-- A text that is as long as a piece may be and ends with a newline: the last piece is empty.
trailing_newline : split_message (97 ∷ 98 ∷ 99 ∷ 10 ∷ []) 3 ≡ (97 ∷ 98 ∷ 99 ∷ []) ∷ [] ∷ []
unfolding split_message
trailing_newline = refl

abbrev note : OutItem
note = record { thread = 7; text = lines; reply_to = 1; doc_name = []; ack_id = lit "1.2.3.a@b" }

abbrev queued : Sender
queued = sender (enqueue note (Sender.queue empty_sender)) none

queued_once_example :
    (pending (lit "1.2.3.a@b") queued ≤ 1)
    × ((now : ℕ)
        → 1 ≤ pending (lit "1.2.3.a@b") queued
        → (is_inflight now (lit "1.2.3.a@b") (Sender.queue queued)).0 ≡ true)
queued_once_example =
    queued_once queued (lit "1.2.3.a@b") (step start (relay 5 note refl refl)) refl

abbrev never : StatusRecord
never = status_record unset 0 0

abbrev unseen : Snapshots
unseen node = none

told-Spaced_example :
    Spaced unset 0 (told 900 (lit "tassadar@adun") never ((1000, unseen) ∷ (2000, unseen) ∷ []))
told-Spaced_example =
    told-Spaced 900 (lit "tassadar@adun") never ((1000, unseen) ∷ (2000, unseen) ∷ [])
