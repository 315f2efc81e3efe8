-- ===== src/Protocol/Decode.antt =====
-- The shape that the decoders of src/protocol/protocol.cpp share: read the fields in turn, require
-- `done()`, then check the values. What a decoder promises is in two halves, below.
use bolt_stream.Base.{
  String, ◌≡◌, refl, sym, ap, subst, ◌∙◌, Option, none, some, [], ◌∷◌, All, Bytes, append-nil,
}
use bolt_stream.Protocol.Types.{ErrorCode, Decoded, ok, err}
use bolt_stream.Protocol.Wire.{Reader, IsByte}
use bolt_stream.Protocol.Wire.Reads.{Reads}
use bolt_stream.Protocol.Wire.Parses.{Parses}

module _ {ℓ} {A : Type ℓ} (code : ErrorCode) (message : String) where
  abbrev pub finish : (A → Decoded A) → Option (A × Bytes) → Decoded A
  finish checks none = err code message
  finish checks (some (a, [])) = checks a
  finish checks (some (a, b ∷ rest)) = err code message

  -- The fields by `m`, then `done()`, or else the error `message`; then the checks of the values.
  abbrev pub decode_with : Reader A → (A → Decoded A) → Bytes → Decoded A
  decode_with m checks payload = finish checks (m payload)

  finish-ok :
      (checks : A → Decoded A) (o : Option (A × Bytes)) {a : A}
      → finish checks o ≡ ok a
      → (b : A) × (o ≡ some (b, [])) × (checks b ≡ ok a)
  finish-ok checks none e = cc
  finish-ok checks (some (b, [])) e = (b, refl, e)
  finish-ok checks (some (b, x ∷ rest)) e = cc

  module _ {Fits Accepts : A → Type 0} {w : A → Bytes} {m : Reader A} {checks : A → Decoded A} where
    -- An encoded value that fits its fields and passes the checks is decoded to itself.
    pub decode_with-written :
        Reads Fits w m
        → ((a : A) → Accepts a → checks a ≡ ok a)
        → (a : A) → Fits a × Accepts a
        → decode_with m checks (w a) ≡ ok a
    decode_with-written r accept a h =
        let e : m (w a) ≡ some (a, []) = ap m (sym (append-nil (w a))) ∙ r.at a [] h.0 in
        rw e (accept a h.1)

    -- What is decoded was encoded so, byte for byte, and is valid.
    pub written-decode_with :
        Parses Fits [] m w
        → ((a b : A) → checks b ≡ ok a → (b ≡ a) × Accepts a)
        → (payload : Bytes) {a : A} → All IsByte payload
        → decode_with m checks payload ≡ ok a
        → (w a ≡ payload) × (Fits a × Accepts a)
    written-decode_with pm accepted payload {a} hb e =
        let (b, read, checked) = finish-ok checks (m payload) e in
        let (split, fits, none_left) = pm.at payload hb read in
        let (same, accepts) = accepted a b checked in
        (sym (split ∙ append-nil (w b) ∙ ap w same), (subst Fits same fits, accepts))

-- What a message's two functions promise: an encoded value that is valid is decoded to itself, and
-- what is decoded is valid and was encoded so, byte for byte.
pub record IsCodec {ℓ} {A : Type ℓ} (Valid : A → Type 0) (encode : A → Bytes)
    (decode : Bytes → Decoded A) : Type ℓ where
  pub decode-encode : (a : A) → Valid a → decode (encode a) ≡ ok a
  pub encode-decode :
      (payload : Bytes) {a : A}
      → All IsByte payload
      → decode payload ≡ ok a
      → (encode a ≡ payload) × Valid a

module _ {ℓ} {A : Type ℓ} (code : ErrorCode) (message : String) {Fits : A → Type 0} {w : A → Bytes}
    {m : Reader A} where
  pub codec :
      {Accepts : A → Type 0} {checks : A → Decoded A}
      → Reads Fits w m
      → Parses Fits [] m w
      → ((a : A) → Accepts a → checks a ≡ ok a)
      → ((a b : A) → checks b ≡ ok a → (b ≡ a) × Accepts a)
      → IsCodec (λ a. Fits a × Accepts a) w (decode_with code message m checks)
  codec r pm accept accepted = record {
    decode-encode = decode_with-written code message r accept;
    encode-decode = written-decode_with code message pm accepted;
  }

  -- A decoder with no checks of its values.
  pub codec_unchecked :
      Reads Fits w m → Parses Fits [] m w → IsCodec Fits w (decode_with code message m ok)
  codec_unchecked r pm = record {
    decode-encode =
        λ a h. decode_with-written code message {Accepts = λ _. Unit {0}} r (λ b _. refl) a (h, tt);
    encode-decode = λ payload hb e.
        let (same, valid) =
          written-decode_with code message {Accepts = λ _. Unit {0}} pm (λ a b e. (cc, tt)) payload
            hb e in
        (same, valid.0);
  }
