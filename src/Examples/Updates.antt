-- ===== src/Examples/Updates.antt =====
-- Three updates of a chat: one is denied, one cannot be sent at first and is fetched again after a restart.
use khala_network.Common.{
  ℕ, ◌≡◌, refl, lit, List, [], ◌∷◌, Bool, true, false, ◌&&◌, leb, ◌==◌, arith,
}
use khala_network.Text.Strings.{cut_prefix, trim_space}
use khala_network.Gateway.Inbound.{
  Inbound, topic_for, handling, Desk, Poll, handle_inbound, insert_update, sort_updates,
  handle_updates, handle_batch,
}
use khala_network.Gateway.Offsets.{
  NoGaps, Turn, polls, restarts, desk_after, Careful, desk_after-Careful,
}

abbrev update : ℕ → ℕ → Inbound
update id user = record {
  thread_id = 9;
  message_id = id;
  update_id = id;
  user_id = user;
  text = lit "hi";
  is_command = false;
  ignore = false;
}

abbrev poll_of : List Inbound → Bool → Poll
poll_of updates fails = record {
  updates = updates;
  allow = λ u. u == 1;
  topics = (lit "a@n", 9) ∷ [];
  send_fails = λ u. fails && u == 6;
  save_fails = λ u. false;
}

abbrev first_poll : Poll
first_poll = poll_of (update 6 1 ∷ update 5 2 ∷ update 7 1 ∷ []) true

abbrev second_poll : Poll
second_poll = poll_of (update 6 1 ∷ update 7 1 ∷ []) false

abbrev desk : Desk
desk = record { offset = 5; stored = 5; handled = []; sent = [] }

abbrev turns : List Turn
turns = polls first_poll ∷ restarts ∷ polls second_poll ∷ []

abbrev service : ℕ → Bool
service u = leb 5 u && leb u 7

turns_handled : desk_after turns desk ≡ record {
  offset = 8;
  stored = 8;
  handled = 7 ∷ 6 ∷ 5 ∷ [];
  sent =
      record { update_id = 7; address = lit "a@n" }
      ∷ record { update_id = 6; address = lit "a@n" }
      ∷ [];
}
unfolding handle_batch handle_updates handle_inbound handling topic_for cut_prefix trim_space
    sort_updates insert_update
turns_handled = refl

-- The witness.
first_served : NoGaps service 5 (first_poll.updates)
first_served u b s o e h = ground arith

desk_after-Careful_example : Careful service (desk_after turns desk)
unfolding handle_batch handle_updates handle_inbound handling topic_for cut_prefix trim_space
    sort_updates insert_update
desk_after-Careful_example =
    desk_after-Careful service turns desk (first_served, (λ u b s o e h. ground arith, tt))
      (record { offset = λ u s h. absurd (ground arith); stored = λ u s h. absurd (ground arith) })
