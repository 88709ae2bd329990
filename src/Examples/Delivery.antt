-- ===== src/Examples/Delivery.antt =====
-- A letter goes from one relay to the other, and is unlinked: a whole run of the two ends.
use khala_network.Common.{◌≡◌, refl, lit, [], ◌∷◌, none, some, true, false, take_exact}
use khala_network.Wire.Offers.{offer_frame, decode_offer, read_offer}
use khala_network.Wire.Frames.{frame_need, frame_stored}
use khala_network.Wire.Messages.{id_frame, data_frame, decode_data, decode_id}
use khala_network.Install.Files.{FilePath, put, rename}
use khala_network.Install.Epochs.{UnixTime, since}
use khala_network.Install.Staging.{Holds}
use khala_network.Relay.State.{Link, State, Step, need, stored, has_id, mark_known, add_origin}
use khala_network.Relay.Reader.{
  on_frame, on_offer, accept_offer, on_data, on_response, finish_install,
}
use khala_network.Install.Destination.{destination}
use khala_network.Install.Receive.{
  inspect, receive, stage, install_staged, write_staging, install_object, install_immutable,
  staging,
}
use khala_network.Names.{valid_node, valid_basename}
use khala_network.Install.Quarantine.{same_digest, place, remove_transit}
use khala_network.Wire.Digest.{transfer_id, transfer_input, hex_encode, hex_decode}
use khala_network.Wire.Codec.{put_u64, put_str, get_u64, get_str, put_be, be_value, done}
use khala_network.Relay.Sender.{
  Candidate, plan, plan_bytes, wait_response, removes_origin, fire_and_forget,
}
use khala_network.Relay.Exchange.{Outbound, Await, idle, second, Turn, on_reply, settle_copy}
use khala_network.Relay.Exchange
use khala_network.Relay.Network.{
  node, Named, of_need, of_stored, starts, replies, installs, net, peer_moves, peer_reads, we_move,
  we_read, Fresh, Run, begins, goes_on, Was,
}
use khala_network.Relay.NoLoss.{Delivered, unlinked-Delivered}
use khala_network.Examples.Data.{
  letter, letter_object, letter-IsObject, dialer, server, calm, empty_home, checksum, contents,
  link_of, idle_state, checksum-IsByte, length-checksum,
}

abbrev ours : Link
ours = link_of server

abbrev theirs : Link
theirs = link_of dialer

abbrev letter_path : FilePath
letter_path = lit "spool" ∷ lit "for" ∷ lit "probe" ∷ lit "12.34.5.tassadar@adun" ∷ []

abbrev candidate : Candidate
candidate = record { named = letter_object; path = letter_path; delete_after_stored = true }

abbrev sending : State
sending = record idle_state { fs = put letter_path (some contents) empty_home }

abbrev clock : UnixTime
clock = since 100

candidate-Named : Named candidate
candidate-Named = record {
  class = letter-IsObject.class;
  stream = tt;
  node = letter-IsObject.node;
  session = tt;
  basename = letter-IsObject.basename;
}

abbrev offered : Turn
offered =
    Exchange.start ours calm candidate contents (plan ours clock candidate (some contents) sending)
      sending

abbrev asked : Step
asked = on_frame theirs clock false (offer_frame letter) idle_state

abbrev told : Step
told = on_frame ours clock false (id_frame frame_need letter.id) offered.now_at.state

abbrev given : Turn
given =
    on_reply ours false offered.awaits (id_frame frame_need letter.id)
      (record told.state { responses = [] })

abbrev taken : Step
taken = on_frame theirs clock false (data_frame letter.id contents) asked.state

abbrev placed : Step
placed = finish_install theirs clock calm taken.state

abbrev heard : Step
heard = on_frame ours clock false (id_frame frame_stored letter.id) given.now_at.state

fresh : Fresh (net (node sending idle) (node idle_state idle) [])
fresh = record {
  us_rested = record { waits = refl; no_responses = refl; no_offer = refl; no_install = refl };
  peer_rested = record { waits = refl; no_responses = refl; no_offer = refl; no_install = refl };
  silent = refl;
}

whole_run : Run ours theirs (net (node heard.state given.awaits) (node placed.state idle) [])
unfolding on_frame on_offer accept_offer on_data on_response finish_install receive decode_offer
    read_offer offer_frame destination inspect valid_node valid_basename same_digest put_u64 put_str
    get_u64 get_str put_be be_value done hex_encode hex_decode transfer_id transfer_input take_exact
    Exchange.start plan plan_bytes on_reply wait_response decode_id id_frame decode_data data_frame
    put rename place stage install_staged has_id write_staging install_object install_immutable
    staging removes_origin settle_copy remove_transit mark_known fire_and_forget add_origin
whole_run =
    goes_on
      (goes_on
        (goes_on
          (goes_on
            (goes_on
              (goes_on
                (goes_on (begins fresh)
                  (we_move (starts clock calm candidate (some contents) candidate-Named)))
                (peer_reads clock false (offer_frame letter)))
              (we_read clock false (need letter.id) (id_frame frame_need letter.id)
                (of_need letter.id)))
            (we_move (replies false (id_frame frame_need letter.id) [] refl)))
          (peer_reads clock false (data_frame letter.id contents)))
        (peer_moves (installs clock calm)))
      (we_read clock false (stored letter.id) (id_frame frame_stored letter.id)
        (of_stored letter.id))

abbrev outbound : Outbound
outbound = record { candidate = candidate; offered = letter; bytes = contents; removes = false }

abbrev settled : Turn
settled =
    on_reply ours false (second outbound) (id_frame frame_stored letter.id)
      (record heard.state { responses = [] })

-- Our sender waits for STORED and has it; the letter is there until then, and not after.
outcome :
    (given.awaits ≡ second outbound)
    × (heard.state.responses ≡ id_frame frame_stored letter.id ∷ [])
    × (heard.state.fs letter_path ≡ some contents)
    × (settled.now_at.state.fs letter_path ≡ none)
unfolding on_frame on_offer accept_offer on_data on_response finish_install receive decode_offer
    read_offer offer_frame destination inspect valid_node valid_basename same_digest put_u64 put_str
    get_u64 get_str put_be be_value done hex_encode hex_decode transfer_id transfer_input take_exact
    Exchange.start plan plan_bytes on_reply wait_response decode_id id_frame decode_data data_frame
    put rename place stage install_staged has_id write_staging install_object install_immutable
    staging removes_origin settle_copy remove_transit mark_known fire_and_forget add_origin
outcome = (refl, refl, refl, refl)

unlinked-Delivered_example :
    (letter_path ≡ letter_path)
    × Holds checksum letter_path letter.digest heard.state.fs
    × Was (Delivered theirs letter) whole_run
unlinked-Delivered_example =
    unlinked-Delivered ours theirs whole_run
      (record { bytes = checksum-IsByte; size = length-checksum }) refl outbound false
      (id_frame frame_stored letter.id) [] letter_path outcome.0 outcome.1 refl
      (λ e. cc (outcome.3, outcome.2, e))
