-- ===== src/Relay/Named.antt =====
-- A transfer id of link/protocol.go names one object among those that link/install.go accepts.
use khala_network.Common.{◌≡◌, Str, ok, All}
use khala_network.Wire.Digest.{IsByte, SameObject, transfer_input}
use khala_network.Wire.Frames.{Frame}
use khala_network.Wire.Offers.{Offer, decode_offer, decode_offer_sound, same_id-SameObject}
use khala_network.Install.Files.{FilePath}
use khala_network.Install.Destination.{Installer, destination}
use khala_network.Install.Objects.{destination-IsObject}

-- Two decoded OFFERs of one transfer id that installers have destinations for name the same object with
-- the same digest, unless their transfer inputs collide under a SHA-256 that returns bytes.
pub accepted_id-SameObject :
    (sha256 : Str → Str)
    → ((s : Str) → All IsByte (sha256 s))
    → (i j : Installer) (f g : Frame) (o p : Offer) {a b : FilePath} → decode_offer sha256 f ≡ ok o
    → decode_offer sha256 g ≡ ok p
    → destination i o.object ≡ ok a
    → destination j p.object ≡ ok b
    → o.id ≡ p.id
    → (sha256 (transfer_input o.object) ≡ sha256 (transfer_input p.object)
        → transfer_input o.object ≡ transfer_input p.object)
    → SameObject o.object p.object
accepted_id-SameObject sha256 bytes i j f g o p df dg there_o there_p e no_collision =
    same_id-SameObject sha256 bytes f g o p df dg
      (destination-IsObject i o.object there_o (decode_offer_sound sha256 f o df).1)
      (destination-IsObject j p.object there_p (decode_offer_sound sha256 g p dg).1) e no_collision
