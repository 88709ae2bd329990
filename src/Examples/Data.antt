-- ===== src/Examples/Data.antt =====
-- The concrete values of the examples: a letter, the node that it is for, and an empty home.
use khala_network.Common.{
  ℕ, zero, suc, ◌+◌, ◌%◌, ◌≡◌, refl, Str, lit, [], ◌∷◌, length, none, Bool, true, false, arith, All,
  if◌then◌else◌, ◌==◌,
}
use khala_network.Wire.Digest.{
  ObjectId, IsByte, IsObject, NoNul, transfer_id, hex_encode, length-hex_encode,
}
use khala_network.Wire.Offers.{Offer, OfferFits}
use khala_network.Wire.Messages.{Hello, HelloFits}
use khala_network.Install.Files.{Fs}
use khala_network.Install.Destination.{Installer, dial, serve}
use khala_network.Install.Quarantine.{Io, supported}
use khala_network.Install.Presence.{SnapshotGeneration}
use khala_network.Relay.State.{Link, State}

abbrev sum : Str → ℕ
sum [] = 0
sum (b ∷ s) = b + sum s

-- Stands for SHA-256: 32 bytes that depend on the input.
abbrev zeros : ℕ → Str
zeros zero = []
zeros (suc n) = 0 ∷ zeros n

abbrev pub checksum : Str → Str
checksum s = (sum s % 256) ∷ zeros 31

pub checksum-IsByte : (s : Str) → All IsByte (checksum s)
checksum-IsByte s = (omega arith, zeros-IsByte 31)
  where
    zeros-IsByte : (n : ℕ) → All IsByte (zeros n)
    zeros-IsByte zero = tt
    zeros-IsByte (suc n) = (omega arith, zeros-IsByte n)

pub length-checksum : (s : Str) → length (checksum s) ≡ 32
length-checksum s = refl

abbrev pub parser : SnapshotGeneration
parser node text = none

abbrev pub contents : Str
contents = lit "en taro"

abbrev pub letter_object : ObjectId
letter_object = record {
  class = lit "spool";
  stream = [];
  node = lit "probe";
  session = [];
  basename = lit "12.34.5.tassadar@adun";
  digest = checksum contents;
}

abbrev pub letter : Offer
letter = record { id = transfer_id checksum letter_object; object = letter_object; size = 7 }

pub letter-OfferFits : OfferFits letter
unfolding transfer_id hex_encode
letter-OfferFits = record {
  id = omega (arith, length-hex_encode (checksum contents));
  class = omega arith;
  stream = omega arith;
  node = omega arith;
  session = omega arith;
  basename = omega arith;
  size = omega arith;
  digest_bytes = checksum-IsByte contents;
  digest_length = refl;
  stream_absent = λ _. refl;
  session_absent = λ _. refl;
}

abbrev no_nul : Str → Bool
no_nul [] = true
no_nul (b ∷ s) = let rest = no_nul s in if b == 0 then false else rest

no_nul-NoNul : (s : Str) → no_nul s ≡ true → NoNul s
no_nul-NoNul [] h = tt
no_nul-NoNul (b ∷ s) h = (ground (arith, h), no_nul-NoNul s (ground (arith, h)))

pub letter-IsObject : IsObject letter_object
letter-IsObject = record {
  class = no_nul-NoNul (lit "spool") refl;
  stream = λ h. cc;
  node = no_nul-NoNul (lit "probe") refl;
  session = λ h. cc;
  basename = no_nul-NoNul (lit "12.34.5.tassadar@adun") refl;
  digest = refl;
}

-- The node that the letter is for.
abbrev pub dialer : Installer
dialer = record { role = dial; peer = lit "probe" }

-- The serving end of that node's connection.
abbrev pub server : Installer
server = record { role = serve; peer = lit "probe" }

abbrev pub calm : Io
calm = record {
  pid = lit "1";
  nanos = lit "2";
  partial = [];
  mkdir_tmp_fails = false;
  create_fails = false;
  stale_rename_fails = false;
  write_fails = false;
  sync_fails = false;
  close_fails = false;
  mkdir_dest_fails = false;
  no_replace = supported;
  link_fails = false;
  rename_fails = false;
  sync_dir_fails = false;
  read_fails = false;
  compact_fails = false;
  quarantine_dir_fails = false;
  quarantine_rename_fails = false;
  quarantine_sync_fails = false;
  quarantine_replace = supported;
  quarantine_read_fails = false;
  ears = [];
  prune_fails = false;
}

abbrev pub empty_home : Fs
empty_home p = none

abbrev pub link_of : Installer → Link
link_of i = record {
  installer = i;
  minor = 4;
  max_object = 1048576;
  retain_days = 30;
  sha256 = checksum;
  parse = parser;
}

abbrev pub idle_state : State
idle_state = record {
  incoming = none;
  installing = none;
  active_out = false;
  responses = [];
  origins = [];
  known = [];
  rejected = [];
  fs = empty_home;
}

abbrev pub serving_hello : Hello
serving_hello = record {
  magic = lit "KHALA1";
  major = 1;
  minor = 3;
  node = lit "adun";
  role = lit "serve";
  impl = lit "test";
}

abbrev pub dialing_hello : Hello
dialing_hello = record {
  magic = lit "KHALA1";
  major = 1;
  minor = 4;
  node = lit "probe";
  role = lit "dial";
  impl = lit "test";
}

pub serving_hello-HelloFits : HelloFits serving_hello
serving_hello-HelloFits = record {
  magic = omega arith;
  major = omega arith;
  minor = omega arith;
  node = omega arith;
  role = omega arith;
  impl = omega arith;
}

pub dialing_hello-HelloFits : HelloFits dialing_hello
dialing_hello-HelloFits = record {
  magic = omega arith;
  major = omega arith;
  minor = omega arith;
  node = omega arith;
  role = omega arith;
  impl = omega arith;
}
