-- ===== src/Protocol/Signatures/Binding.antt =====
-- What the signed messages of protocol/signatures.py determine.
use subnet.Base.{◌^◌, ◌<◌, some, [], ◌∷◌, String, length, ◌≡◌, ◌⊎◌, inl, inr, sym, ◌∙◌, arith, All}
use subnet.Base.Maybe.{some_same}
use subnet.Protocol.Bytes.{Bytes, to_bytes}
use subnet.Protocol.Crypto.{Hashes}
use subnet.Protocol.Crypto.Framing.{append_split, to_bytes_injective, frame_injective, IsShort}
use subnet.Protocol.Merkle.Root.{Collision, same_or_Collision}
use subnet.Protocol.Signatures.{
  Codec, Envelope, hex_bytes, envelope_parts, envelope_bytes, envelope_message,
  build_envelope_binding,
}

-- The two envelopes claim the same thing, with these bytes in their hex fields.
pub record IsSameClaim (e e' : Envelope) (merkle merkle' rand rand' : Bytes) : Type 0 where
  pub miner_hotkey : e.miner_hotkey ≡ e'.miner_hotkey
  pub window_start : e.window_start ≡ e'.window_start
  pub prompt_idx : e.prompt_idx ≡ e'.prompt_idx
  pub merkle_root : merkle ≡ merkle'
  pub checkpoint_hash : e.checkpoint_hash ≡ e'.checkpoint_hash
  pub drand_round : e.drand_round ≡ e'.drand_round
  pub randomness : rand ≡ rand'
  pub nonce : e.nonce ≡ e'.nonce

module _ (h : Hashes) (codec : Codec)
    (encodes : (s t : String) → codec.encode s ≡ codec.encode t → s ≡ t) where
  open codec use {encode}

  -- The envelope's numbers fit their eight bytes, and its parts their four-byte lengths.
  pub record Fits (e : Envelope) (merkle rand : Bytes) : Type 0 where
    pub window_start : e.window_start < 256 ^ 8
    pub prompt_idx : e.prompt_idx < 256 ^ 8
    pub drand_round : e.drand_round < 256 ^ 8
    pub parts : All IsShort (envelope_parts h codec e merkle rand).1

  length-domain :
      (e : Envelope) (merkle rand : Bytes) → length (envelope_parts h codec e merkle rand).0 ≡ 21
  unfolding envelope_parts
  length-domain e merkle rand = ground arith

  -- Same domain and same parts: then the same version, and the same fields.
  parts_determine :
      (e e' : Envelope) (merkle merkle' rand rand' : Bytes)
      → (envelope_parts h codec e merkle rand).0 ≡ (envelope_parts h codec e' merkle' rand').0
      → (envelope_parts h codec e merkle rand).1 ≡ (envelope_parts h codec e' merkle' rand').1
      → (encode e.miner_hotkey ≡ encode e'.miner_hotkey)
        × (to_bytes 8 e.window_start ≡ to_bytes 8 e'.window_start)
        × (to_bytes 8 e.prompt_idx ≡ to_bytes 8 e'.prompt_idx)
        × (merkle ≡ merkle')
        × (encode e.checkpoint_hash ≡ encode e'.checkpoint_hash)
        × (to_bytes 8 e.drand_round ≡ to_bytes 8 e'.drand_round)
        × (rand ≡ rand')
        × (encode e.nonce ≡ encode e'.nonce)
  unfolding envelope_parts
  parts_determine e e' merkle merkle' rand rand' d p = ground arith

  same_message :
      (e e' : Envelope) (merkle merkle' rand rand' : Bytes)
      → Fits e merkle rand
      → Fits e' merkle' rand'
      → envelope_bytes h codec e merkle rand ≡ envelope_bytes h codec e' merkle' rand'
      → IsSameClaim e e' merkle merkle' rand rand'
  same_message e e' merkle merkle' rand rand' f f' eq =
      let (domains, frames) =
        append_split (envelope_parts h codec e merkle rand).0
          (envelope_parts h codec e' merkle' rand').0
          (length-domain e merkle rand ∙ sym (length-domain e' merkle' rand')) eq in
      let parts =
        frame_injective (envelope_parts h codec e merkle rand).1
          (envelope_parts h codec e' merkle' rand').1 f.parts f'.parts frames in
      let found = parts_determine e e' merkle merkle' rand rand' domains parts in
      record {
        miner_hotkey = encodes _ _ found.0;
        window_start =
            to_bytes_injective 8 e.window_start e'.window_start f.window_start f'.window_start
              found.1;
        prompt_idx =
            to_bytes_injective 8 e.prompt_idx e'.prompt_idx f.prompt_idx f'.prompt_idx found.2;
        merkle_root = found.3;
        checkpoint_hash = encodes _ _ found.4;
        drand_round =
            to_bytes_injective 8 e.drand_round e'.drand_round f.drand_round f'.drand_round found.5;
        randomness = found.6;
        nonce = encodes _ _ found.7;
      }

  -- Two envelopes, of any two versions, whose merkle root and randomness are hex texts, whose
  -- numbers fit eight bytes and whose parts are shorter than 2 ^ 32 bytes: if the digests that
  -- are signed for them are equal, they name the same hotkey, window, prompt, checkpoint, drand
  -- round and nonce, and the same bytes as merkle root and as randomness; or their two messages
  -- differ and have the same SHA-256. UTF-8 is assumed to encode different texts differently.
  pub build_envelope_binding_binds :
      (e e' : Envelope) {merkle merkle' rand rand' : Bytes}
      → hex_bytes e.merkle_root ≡ some merkle
      → hex_bytes e'.merkle_root ≡ some merkle'
      → hex_bytes e.randomness ≡ some rand
      → hex_bytes e'.randomness ≡ some rand'
      → Fits e merkle rand
      → Fits e' merkle' rand'
      → build_envelope_binding h codec e ≡ build_envelope_binding h codec e'
      → IsSameClaim e e' merkle merkle' rand rand'
        ⊎ Collision h.sha256
            (envelope_bytes h codec e merkle rand ∷ [])
            (envelope_bytes h codec e' merkle' rand' ∷ [])
  unfolding build_envelope_binding envelope_message
  build_envelope_binding_binds e e' {merkle} {merkle'} {rand} {rand'} m m' r r' f f' eq =
      let digests : some (h.sha256 (envelope_bytes h codec e merkle rand))
          ≡ some (h.sha256 (envelope_bytes h codec e' merkle' rand')) =
        rw (m, m', r, r') at eq in
      elim (same_or_Collision h.sha256 (envelope_bytes h codec e merkle rand)
        (envelope_bytes h codec e' merkle' rand') (some_same _ _ digests)) [
          | inl same ↦ inl (same_message e e' merkle merkle' rand rand' f f' same)
          | inr c ↦ inr c
        ]
