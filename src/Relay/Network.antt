-- ===== src/Relay/Network.antt =====
-- Two relays of link/pump.go on one connection: our end, its peer, and the frames on their way from the
-- peer to us. What the peer reads is left open: it may be any frame at any time.
use khala_network.Common.{ℕ, ◌≡◌, Str, List, [], ◌∷◌, ◌++◌, Option, none, some, Bool, ◌⊎◌}
use khala_network.Wire.Digest.{NoNul}
use khala_network.Wire.Offers.{Offer, offer_frame}
use khala_network.Wire.Frames.{
  Frame, frame_have, frame_need, frame_stored, frame_ping, frame_pong, frame_bye,
}
use khala_network.Wire.Messages.{id_frame, data_frame, epoch_frame, error_frame}
use khala_network.Install.Files.{Fs}
use khala_network.Install.Epochs.{UnixTime}
use khala_network.Install.Quarantine.{Io}
use khala_network.Relay.State.{
  Link, Message, offer, have, need, stored, bytes_of, pong, ping, refusal, bye, State,
}
use khala_network.Relay.Reader.{on_frame, finish_install}
use khala_network.Relay.Sender.{Candidate, plan}
use khala_network.Relay.Exchange.{Await, idle, Turn, on_reply}
use khala_network.Relay.Exchange

-- A relay: its state, and what its sender waits for.
pub record Node : Type 0 where
  pub state : State
  pub awaits : Await

abbrev pub node : State → Await → Node
node s a = record { state = s; awaits = a }

abbrev pub after_turn : Turn → Node
after_turn t = node t.now_at.state t.awaits

-- The frame that is written for a message; the text of an ERROR may be any.
pub data Encodes : Message → Frame → Type 0 where
  of_offer : (o : Offer) → Encodes (offer o) (offer_frame o)
  of_have : (id : Str) → Encodes (have id) (id_frame frame_have id)
  of_need : (id : Str) → Encodes (need id) (id_frame frame_need id)
  of_stored : (id : Str) → Encodes (stored id) (id_frame frame_stored id)
  of_bytes : (id bytes : Str) → Encodes (bytes_of id bytes) (data_frame id bytes)
  of_pong : (n : ℕ) → Encodes (pong n) (epoch_frame frame_pong n)
  of_ping : (n : ℕ) → Encodes (ping n) (epoch_frame frame_ping n)
  of_refusal :
      (code : Str)
      → (r : Bool) → (text : Str)
      → Encodes
          (refusal code r)
          (error_frame (record { code = code; recoverable = r; text = text }))
  of_bye : Encodes bye (record { typ = frame_bye; payload = [] })

-- The names of a candidate are names of files, which have no zero byte.
pub record Named (c : Candidate) : Type 0 where
  pub class : NoNul c.class
  pub stream : NoNul c.stream
  pub node : NoNul c.node
  pub session : NoNul c.session
  pub basename : NoNul c.basename

abbrev pub content : Option Str → Str
content (some bytes) = bytes
content none = []

-- What a relay does without reading a frame: an install ends, the sender takes up a candidate, or the
-- next frame that the reader passed on; and other programs change the files.
pub data Moves (l : Link) : Node → Node → List Message → Type 0 where
  installs :
      {s : State}
      → {a : Await} → (now : UnixTime) → (io : Io)
      → Moves l
          (node s a)
          (node (finish_install l now io s).state a)
          (finish_install l now io s).sent
  starts :
      {s : State}
      → (now : UnixTime) → (io : Io) → (c : Candidate) → (found : Option Str) → Named c
      → Moves l
          (node s idle)
          (after_turn (Exchange.start l io c (content found) (plan l now c found s) s))
          (Exchange.start l io c (content found) (plan l now c found s) s).now_at.sent
  replies :
      {s : State}
      → {a : Await} → (read_fails : Bool) → (f : Frame) → (rest : List Frame)
      → s.responses ≡ f ∷ rest
      → Moves l
          (node s a)
          (after_turn (on_reply l read_fails a f (record s { responses = rest })))
          (on_reply l read_fails a f (record s { responses = rest })).now_at.sent
  disk :
      {s : State} → {a : Await} → (fs : Fs) → Moves l (node s a) (node (record s { fs = fs }) a) []

pub record Net : Type 0 where
  pub us : Node
  pub peer : Node
  pub coming : List Message

abbrev pub net : Node → Node → List Message → Net
net u p ms = record { us = u; peer = p; coming = ms }

module _ (ours theirs : Link) where
  pub data NetStep : Net → Net → Type 0 where
    peer_moves :
        {u p p' : Node}
        → {ms out : List Message} → Moves theirs p p' out
        → NetStep (net u p ms) (net u p' (ms ++ out))
    peer_reads :
        {u : Node}
        → {s : State} → {a : Await} → {ms : List Message} → (now : UnixTime) → (read_fails : Bool)
        → (f : Frame)
        → NetStep (net u (node s a) ms) (
            net u
              (node (on_frame theirs now read_fails f s).state a)
              (ms ++ (on_frame theirs now read_fails f s).sent))
    we_move :
        {u u' p : Node}
        → {ms out : List Message} → Moves ours u u' out
        → NetStep (net u p ms) (net u' p ms)
    we_read :
        {s : State}
        → {a : Await} → {p : Node} → {ms : List Message} → (now : UnixTime) → (read_fails : Bool)
        → (m : Message) → (f : Frame) → Encodes m f
        → NetStep
            (net (node s a) p (m ∷ ms))
            (net (node (on_frame ours now read_fails f s).state a) p ms)

-- A connection that begins: nothing is under way.
pub record Rested (n : Node) : Type 0 where
  pub waits : n.awaits ≡ idle
  pub no_responses : n.state.responses ≡ []
  pub no_offer : n.state.incoming ≡ none
  pub no_install : n.state.installing ≡ none

pub record Fresh (n : Net) : Type 0 where
  pub us_rested : Rested n.us
  pub peer_rested : Rested n.peer
  pub silent : n.coming ≡ []

module _ (ours theirs : Link) where
  pub data Run : Net → Type 0 where
    begins : {n : Net} → Fresh n → Run n
    goes_on : {n n' : Net} → Run n → NetStep ours theirs n n' → Run n'

-- Something held at a moment of the run, its last included.
abbrev pub Was : {ours theirs : Link} → (Net → Type 0) → {n : Net} → Run ours theirs n → Type 0
Was Q (begins {n = n} f) = Q n
Was Q (goes_on {n' = n'} r s) = Was Q r ⊎ Q n'
