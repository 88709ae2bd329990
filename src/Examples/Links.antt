-- ===== src/Examples/Links.antt =====
-- The letter is offered, accepted and stored; two ends greet each other.
use khala_network.Common.{◌∷◌, ℕ, Str, ◌≡◌, refl, lit, [], some, ok, true, false, All}
use khala_network.Wire.Digest.{SameObject}
use khala_network.Wire.Messages.{hello_frame, decode_hello-hello_frame, ProtocolError}
use khala_network.Wire.Offers.{offer_frame, decode_offer, decode_offer-offer_frame}
use khala_network.Names.{valid_node, valid_basename}
use khala_network.Text.Regex.{matches}
use khala_network.Install.Files.{put}
use khala_network.Install.Destination.{dial, serve, destination}
use khala_network.Install.Epochs.{since}
use khala_network.Relay.State.{State}
use khala_network.Relay.Handshake.{connect, handshake, Accepted, connect_sound, connect_agree}
use khala_network.Relay.Reader.{on_frame, finish_install}
use khala_network.Relay.Promises.{InPlace, Backed, KeepsWord}
use khala_network.Relay.Named.{accepted_id-SameObject}
use khala_network.Relay.Stored.{OfferedBy, on_frame-KeepsWord, finish_install-Backed}
use khala_network.Examples.Data.{
  letter, letter_object, dialer, calm, empty_home, checksum, contents, link_of, idle_state,
  letter-OfferFits, checksum-IsByte, serving_hello, dialing_hello, serving_hello-HelloFits,
  dialing_hello-HelloFits,
}

letter_decoded : decode_offer checksum (offer_frame letter) ≡ ok letter
letter_decoded = decode_offer-offer_frame checksum letter letter-OfferFits refl

decode_offer-offer_frame_example : decode_offer checksum (offer_frame letter) ≡ ok letter
decode_offer-offer_frame_example = decode_offer-offer_frame checksum letter letter-OfferFits refl

letter_accepted :
    destination dialer letter_object
    ≡ ok (lit "spool" ∷ lit "for" ∷ lit "probe" ∷ lit "12.34.5.tassadar@adun" ∷ [])
unfolding destination valid_node valid_basename matches
letter_accepted = refl

accepted_id-SameObject_example : SameObject letter_object letter_object
accepted_id-SameObject_example =
    accepted_id-SameObject checksum checksum-IsByte dialer dialer (offer_frame letter)
      (offer_frame letter) letter letter letter_decoded letter_decoded letter_accepted
      letter_accepted refl (λ _. refl)

abbrev hash_mismatch : ProtocolError
hash_mismatch = record { code = lit "HASH_MISMATCH"; recoverable = true; text = lit "sum" }

dialed : connect dial (lit "adun") 4 (hello_frame serving_hello) ≡ ok (lit "adun", 3)
unfolding connect handshake valid_node
dialed = rw (decode_hello-hello_frame serving_hello serving_hello-HelloFits) refl

served : connect serve [] 3 (hello_frame dialing_hello) ≡ ok (lit "probe", 3)
unfolding connect handshake valid_node
served = rw (decode_hello-hello_frame dialing_hello dialing_hello-HelloFits) refl

connect_sound_example : Accepted dial (lit "adun") 4 (hello_frame serving_hello) (lit "adun") 3
connect_sound_example =
    connect_sound dial (lit "adun") 4 (hello_frame serving_hello) (lit "adun") 3 dialed

connect_agree_example : ◌≡◌ {A = ℕ} 3 3
connect_agree_example =
    connect_agree dialing_hello serving_hello dialing_hello-HelloFits serving_hello-HelloFits
      (lit "adun") (lit "adun") (lit "probe") 3 3 dialed served

-- The letter is in place already: HAVE and STORED.
abbrev having : State
having = record idle_state {
  fs =
      put (lit "spool" ∷ lit "for" ∷ lit "probe" ∷ lit "12.34.5.tassadar@adun" ∷ []) (some contents)
        empty_home;
}

on_frame-KeepsWord_example :
    KeepsWord
      (OfferedBy (link_of dialer) having.fs (offer_frame letter))
      having.fs
      (on_frame (link_of dialer) (since 100) false (offer_frame letter) having)
on_frame-KeepsWord_example =
    on_frame-KeepsWord (link_of dialer) (since 100) false (offer_frame letter) having

abbrev receiving : State
receiving = record idle_state { installing = some (letter, contents) }

finish_install-Backed_example :
    All
      (Backed (λ o.
        InPlace
          (link_of dialer)
          (finish_install (link_of dialer) (since 100) calm receiving).state.fs
          o
        × ((bytes : Str) × (receiving.installing ≡ some (o, bytes)))))
      (finish_install (link_of dialer) (since 100) calm receiving).sent
finish_install-Backed_example = finish_install-Backed (link_of dialer) (since 100) calm receiving
