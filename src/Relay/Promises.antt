-- ===== src/Relay/Promises.antt =====
-- STORED and HAVE as promises: what it means that a message names an object that is in place.
use khala_network.Common.{◌≡◌, lit, str_eq, List, [], ◌∷◌, false, ok, All}
use khala_network.Wire.Offers.{Offer}
use khala_network.Install.Files.{FilePath, Fs}
use khala_network.Install.Destination.{destination}
use khala_network.Install.Staging.{Holds}
use khala_network.Relay.State.{
  Link, Message, offer, have, need, stored, bytes_of, pong, ping, refusal, bye, Step,
}
use khala_network.Relay.Pending.{Genuine}

-- The destination of the object holds its digest. Presence files are leases and are not kept.
abbrev pub InPlace : Link → Fs → Offer → Type 0
InPlace l fs o =
    str_eq o.class (lit "presence") ≡ false
    → (p : FilePath) × (destination l.installer o.object ≡ ok p) × Holds l.sha256 p o.digest fs

-- An offer that `decodeOffer` has accepted, and whose object is in place.
abbrev pub Vouched : Link → Fs → Offer → Type 0
Vouched l fs o = InPlace l fs o × Genuine l.sha256 o

-- A STORED or HAVE names an object that satisfies `P`.
abbrev pub Backed : (Offer → Type 0) → Message → Type 0
Backed P (stored id) = (o : Offer) × (o.id ≡ id) × P o
Backed P (have id) = (o : Offer) × (o.id ≡ id) × P o
Backed P (offer o) = Unit
Backed P (need id) = Unit
Backed P (bytes_of id bytes) = Unit
Backed P (pong n) = Unit
Backed P (ping n) = Unit
Backed P (refusal code r) = Unit
Backed P bye = Unit

-- A step that writes no other promise, and leaves the files alone.
pub record KeepsWord (P : Offer → Type 0) (fs : Fs) (st : Step) : Type 0 where
  pub promises : All (Backed P) st.sent
  pub files : st.state.fs ≡ fs

pub kept :
    {P : Offer → Type 0} {fs : Fs} {st : Step}
    → All (Backed P) st.sent
    → st.state.fs ≡ fs
    → KeepsWord P fs st
kept h e = record { promises = h; files = e }

Backed-implies :
    (P Q : Offer → Type 0) → ((o : Offer) → P o → Q o) → (m : Message) → Backed P m → Backed Q m
Backed-implies P Q h (stored id) (o, e, p) = (o, e, h o p)
Backed-implies P Q h (have id) (o, e, p) = (o, e, h o p)
Backed-implies P Q h (offer o) b = tt
Backed-implies P Q h (need id) b = tt
Backed-implies P Q h (bytes_of id bytes) b = tt
Backed-implies P Q h (pong n) b = tt
Backed-implies P Q h (ping n) b = tt
Backed-implies P Q h (refusal code r) b = tt
Backed-implies P Q h bye b = tt

pub Backed-mono :
    (P Q : Offer → Type 0)
    → ((o : Offer) → P o → Q o)
    → (ms : List Message) → All (Backed P) ms
    → All (Backed Q) ms
Backed-mono P Q h [] b = tt
Backed-mono P Q h (m ∷ ms) b = (Backed-implies P Q h m b.0, Backed-mono P Q h ms b.1)
