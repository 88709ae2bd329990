-- ===== src/Relay/Handshake.antt =====
-- link/pump.go: the two HELLO frames.
use khala_network.Common.{
  ℕ, ◌≡◌, ◌≤◌, Str, lit, str_eq, str_eq_sound, str_eq_iff, [], Result, ok, err, ◌>>=◌,
  if◌then◌else◌, true, not, ltb, ◌==◌, arith, >>=-eq-ok, ◌≢◌, ap,
}
use khala_network.Wire.Codec.{WireError}
use khala_network.Wire.Frames.{Frame}
use khala_network.Wire.Messages.{
  Hello, HelloFits, hello_frame, decode_hello, decode_hello-hello_frame,
}
use khala_network.Names.{valid_node}
use khala_network.Install.Destination.{Role, dial, serve}

pub data HandshakeError : Type 0 where
  bad_hello : WireError → HandshakeError
  bad_magic major_mismatch bad_node bad_role peer_mismatch : HandshakeError

-- `wantRole`: the other end's role.
unfoldable pub other_role : Role → Str
other_role serve = lit "dial"
other_role dial = lit "serve"

check_hello : Role → Hello → Result HandshakeError Hello
check_hello role remote =
    if not (str_eq remote.magic (lit "KHALA1"))
    then err bad_magic
    else if not (remote.major == 1)
    then err major_mismatch
    else if not (valid_node remote.node)
    then err bad_node
    else if not (str_eq remote.role (other_role role))
    then err bad_role
    else ok remote

abbrev hello_or : Result WireError Hello → Result HandshakeError Hello
hello_or (ok h) = ok h
hello_or (err e) = err (bad_hello e)

-- `handshake`, from the frame that was read.
unfoldable pub handshake : Role → Frame → Result HandshakeError Hello
unfolding check_hello other_role
handshake role f = do remote ← hello_or (decode_hello f); check_hello role remote

unfoldable pub minimum_minor : ℕ → ℕ → ℕ
minimum_minor local remote = if ltb remote local then remote else local

abbrev settle : Role → Str → ℕ → Hello → Result HandshakeError (Str × ℕ)
settle serve expected minor remote = ok (remote.node, minor)
settle dial expected minor remote =
    if str_eq expected []
    then ok (expected, minor)
    else if str_eq remote.node expected
    then ok (expected, minor)
    else err peer_mismatch

-- The peer and the minor version that the connection goes on with. A dialing node that expects a
-- peer ("" for none) refuses another.
unfoldable pub connect : Role → Str → ℕ → Frame → Result HandshakeError (Str × ℕ)
unfolding minimum_minor
connect role expected local_minor f = do
  remote ← handshake role f
  settle role expected (minimum_minor local_minor remote.minor) remote

-- What an accepted handshake establishes of the frame that was read.
pub record Accepted (role : Role) (expected : Str) (local_minor : ℕ) (f : Frame) (peer : Str)
    (minor : ℕ) : Type 0 where
  pub remote : Hello
  pub decoded : decode_hello f ≡ ok remote
  pub magic : remote.magic ≡ lit "KHALA1"
  pub major : remote.major ≡ 1
  pub node : valid_node remote.node ≡ true
  pub role_is : remote.role ≡ other_role role
  pub below_local : minor ≤ local_minor
  pub below_remote : minor ≤ remote.minor
  pub serve_peer : role ≡ serve → peer ≡ remote.node
  pub dial_peer : role ≡ dial → expected ≢ [] → remote.node ≡ expected

hello_or-ok : (r : Result WireError Hello) {h : Hello} → hello_or r ≡ ok h → r ≡ ok h
hello_or-ok (ok a) e = cc
hello_or-ok (err a) e = cc

checked :
    (role : Role) (h : Hello) {k : Hello}
    → check_hello role h ≡ ok k
    → (h ≡ k)
      × (str_eq h.magic (lit "KHALA1") ≡ true)
      × (h.major ≡ 1)
      × (valid_node h.node ≡ true)
      × (str_eq h.role (other_role role) ≡ true)
unfolding check_hello
checked role h e = ground arith

handshake_sound :
    (role : Role) (f : Frame) {h : Hello}
    → handshake role f ≡ ok h
    → (decode_hello f ≡ ok h)
      × (str_eq h.magic (lit "KHALA1") ≡ true)
      × (h.major ≡ 1)
      × (valid_node h.node ≡ true)
      × (str_eq h.role (other_role role) ≡ true)
unfolding handshake
handshake_sound role f e =
    let (first, e1, e2) = >>=-eq-ok (hello_or (decode_hello f)) _ e in
    let (same, magic, major, node, role_is) = checked role first e2 in
    let decoded : decode_hello f ≡ ok first = hello_or-ok (decode_hello f) e1 in
    rw (← same) (decoded, magic, major, node, role_is)

settled :
    (role : Role) (expected : Str) (minor : ℕ) (h : Hello) {peer : Str} {m : ℕ}
    → settle role expected minor h ≡ ok (peer, m)
    → (m ≡ minor)
      × (role ≡ serve → peer ≡ h.node)
      × (role ≡ dial → expected ≢ [] → h.node ≡ expected)
settled serve expected minor h e = ground arith
settled dial expected minor h e = ground (arith, str_eq_iff expected [], str_eq_iff h.node expected)

-- A connection goes on only with a peer that speaks the protocol, plays the other role and has a
-- valid name, at a minor version that neither end exceeds; the serving end takes the peer's name
-- for its peer, and a dialing end that expects a peer has it.
pub connect_sound :
    (role : Role) (expected : Str) (local_minor : ℕ) (f : Frame) (peer : Str) (minor : ℕ)
    → connect role expected local_minor f ≡ ok (peer, minor)
    → Accepted role expected local_minor f peer minor
unfolding connect
connect_sound role expected local_minor f peer minor h =
    let (remote, e, k) = >>=-eq-ok (handshake role f) _ h in
    let (decoded, magic, major, node, role_is) = handshake_sound role f e in
    let (m, at_serve, at_dial) = settled role expected _ remote k in
    record {
      remote = remote;
      decoded = decoded;
      magic = str_eq_sound remote.magic _ magic;
      major = major;
      node = node;
      role_is = str_eq_sound remote.role _ role_is;
      below_local = ground arith;
      below_remote = ground arith;
      serve_peer = at_serve;
      dial_peer = at_dial;
    }

-- Two ends that have exchanged their HELLOs and accept each other go on at the same minor version.
pub connect_agree :
    (a b : Hello)
    → HelloFits a
    → HelloFits b
    → (expected peer peer' : Str) (m n : ℕ)
    → connect dial expected a.minor (hello_frame b) ≡ ok (peer, m)
    → connect serve [] b.minor (hello_frame a) ≡ ok (peer', n)
    → m ≡ n
unfolding connect
connect_agree a b fa fb expected peer peer' m n hd hs =
    let (ra, ea, ka) = >>=-eq-ok (handshake dial (hello_frame b)) _ hd in
    let (rb, eb, kb) = >>=-eq-ok (handshake serve (hello_frame a)) _ hs in
    let da = (handshake_sound dial (hello_frame b) ea).0 in
    let db = (handshake_sound serve (hello_frame a) eb).0 in
    let same_b : b ≡ ra = cc (decode_hello-hello_frame b fb, da) in
    let same_a : a ≡ rb = cc (decode_hello-hello_frame a fa, db) in
    ground (
      arith,
      (settled dial expected _ ra ka).0,
      (settled serve [] _ rb kb).0,
      ap (λ (h : Hello). h.minor) same_b,
      ap (λ (h : Hello). h.minor) same_a,
    )
