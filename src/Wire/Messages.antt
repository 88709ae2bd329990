-- ===== src/Wire/Messages.antt =====
-- link/protocol.go: the payloads of HELLO, DATA, PING, PONG, ERROR and of the frames that carry a
-- transfer id.
use khala_network.Common.{
  ℕ, ◌<◌, ◌≡◌, Str, ◌++◌, length, Result, ok, err, guard, ◌>>=◌, ◌>>◌, ◌==◌, if◌then◌else◌, arith,
  Bool, true, false, ltb,
}
use khala_network.Wire.Codec.{
  WireError, not_hello, bad_flag, u64_mod, put_u64, put_str, get_u64, get_str, done, codec_laws,
  get_str-put_str, get_u64-put_u64, get_str-put_str_end, get_u64-put_u64_end,
}
use khala_network.Wire.Frames.{Frame, frame_hello, frame_data, frame_error}

pub record Hello : Type 0 where
  pub magic : Str
  pub major : ℕ
  pub minor : ℕ
  pub node : Str
  pub role : Str
  pub impl : Str

unfoldable pub hello_frame : Hello → Frame
hello_frame h = record {
  typ = frame_hello;
  payload =
      put_str h.magic
      ++ (put_u64 h.major
          ++ (put_u64 h.minor ++ (put_str h.node ++ (put_str h.role ++ put_str h.impl))));
}

unfoldable pub decode_hello : Frame → Result WireError Hello
unfolding done
decode_hello f = do
  guard (f.typ == frame_hello) (not_hello f.typ)
  (magic, r1) ← get_str f.payload
  (major, r2) ← get_u64 r1
  (minor, r3) ← get_u64 r2
  (node, r4) ← get_str r3
  (role, r5) ← get_str r4
  (impl, r6) ← get_str r5
  done
      (record {
        magic = magic;
        major = major;
        minor = minor;
        node = node;
        role = role;
        impl = impl;
      })
      r6

-- Every string is shorter than 2^64 bytes and every number is a uint64.
pub record HelloFits (h : Hello) : Type 0 where
  pub magic : length h.magic < u64_mod
  pub major : h.major < u64_mod
  pub minor : h.minor < u64_mod
  pub node : length h.node < u64_mod
  pub role : length h.role < u64_mod
  pub impl : length h.impl < u64_mod

-- A HELLO whose fields fit 64 bits, lengths of texts included, is decoded to what was sent.
pub decode_hello-hello_frame : (h : Hello) → HelloFits h → decode_hello (hello_frame h) ≡ ok h
unfolding decode_hello hello_frame
decode_hello-hello_frame h fits =
    simp (codec_laws, fits.magic, fits.major, fits.minor, fits.node, fits.role, fits.impl)

unfoldable pub id_frame : ℕ → Str → Frame
id_frame typ id = record { typ = typ; payload = put_str id }

unfoldable pub decode_id : Frame → Result WireError Str
unfolding done
decode_id f = do (id, rest) ← get_str f.payload; done id rest

pub decode_id-id_frame :
    (typ : ℕ) (id : Str) → length id < u64_mod → decode_id (id_frame typ id) ≡ ok id
unfolding decode_id id_frame
decode_id-id_frame typ id h = rw (get_str-put_str_end id h)

unfoldable pub data_frame : Str → Str → Frame
data_frame id bytes = record { typ = frame_data; payload = put_str id ++ bytes }

unfoldable pub decode_data : Frame → Result WireError (Str × Str)
decode_data f = get_str f.payload

pub decode_data-data_frame :
    (id bytes : Str) → length id < u64_mod → decode_data (data_frame id bytes) ≡ ok (id, bytes)
unfolding decode_data data_frame
decode_data-data_frame id bytes h = get_str-put_str id bytes h

unfoldable pub epoch_frame : ℕ → ℕ → Frame
epoch_frame typ epoch = record { typ = typ; payload = put_u64 epoch }

unfoldable pub decode_epoch : Frame → Result WireError ℕ
unfolding done
decode_epoch f = do (n, rest) ← get_u64 f.payload; done n rest

pub decode_epoch-epoch_frame : (typ n : ℕ) → n < u64_mod → decode_epoch (epoch_frame typ n) ≡ ok n
unfolding decode_epoch epoch_frame
decode_epoch-epoch_frame typ n h = rw (get_u64-put_u64_end n h)

pub record ProtocolError : Type 0 where
  pub code : Str
  pub recoverable : Bool
  pub text : Str

unfoldable pub error_frame : ProtocolError → Frame
error_frame p = record {
  typ = frame_error;
  payload = put_str p.code ++ (put_u64 (if p.recoverable then 1 else 0) ++ put_str p.text);
}

unfoldable pub decode_error : Frame → Result WireError ProtocolError
unfolding done
decode_error f = do
  (code, r1) ← get_str f.payload
  (recoverable, r2) ← get_u64 r1
  if ltb 1 recoverable then err bad_flag else do
    (text, r3) ← get_str r2
    done (record { code = code; recoverable = recoverable == 1; text = text }) r3

decode_error_by_flag :
    (code text : Str) (flag : Bool)
    → length code < u64_mod
    → length text < u64_mod
    → let p : ProtocolError = record { code = code; recoverable = flag; text = text } in
      decode_error (error_frame p) ≡ ok p
unfolding decode_error error_frame
decode_error_by_flag code text true hc ht =
    rw (get_str-put_str code (put_u64 1 ++ put_str text) hc)
      (rw (get_u64-put_u64 1 (put_str text) (omega arith)) (rw (get_str-put_str_end text ht)))
decode_error_by_flag code text false hc ht =
    rw (get_str-put_str code (put_u64 0 ++ put_str text) hc)
      (rw (get_u64-put_u64 0 (put_str text) (omega arith)) (rw (get_str-put_str_end text ht)))

-- An ERROR whose texts have lengths of 64 bits is decoded to what was sent.
decode_error-error_frame :
    (p : ProtocolError)
    → length p.code < u64_mod
    → length p.text < u64_mod
    → decode_error (error_frame p) ≡ ok p
decode_error-error_frame p hc ht = decode_error_by_flag p.code p.text p.recoverable hc ht
