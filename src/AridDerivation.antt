-- ===== src/AridDerivation.antt =====
-- arid_derivation.rs: the keys that are derived from an ARID, and the obfuscation of what is stored.
-- HKDF, ChaCha20 and `hex::encode` are parameters; of ChaCha20 the code uses the key stream.
pub mod Laws
use Prim.Native.Nat.{bit_xor}
use mathlib.Core.List.{reverse}
use hubert_rust.Base.{ℕ, zero, suc, ◌+◌, ◌<◌, ◌*◌, ◌≡◌, Bool, List, [], ◌∷◌}
use hubert_rust.Base.Lists.{Bytes, All, text, length, take}
use hubert_rust.Gordian.{Gordian}

pub record Crypto : Type 0 where
  -- `hkdf_hmac_sha256(salt, key_material, output_len)`
  pub hkdf : Bytes → Bytes → ℕ → Bytes
  -- the byte of the ChaCha20 key stream of a key and an initialisation vector at a position
  pub keystream : Bytes → Bytes → ℕ → ℕ
  pub hex_encode : Bytes → Bytes

-- What the libraries promise: HKDF gives as many bytes as it is asked for, and two hexadecimal
-- digits show a byte.
pub record IsCrypto (K : Crypto) : Type 0 where
  pub length-hkdf : (salt ikm : Bytes) (n : ℕ) → length (K.hkdf salt ikm n) ≡ n
  pub length-hex_encode : (s : Bytes) → length (K.hex_encode s) ≡ 2 * length s

-- `apply_keystream`: the bytes combined with the key stream from a position on
unfoldable pub apply_keystream : (ℕ → ℕ) → ℕ → Bytes → Bytes
apply_keystream stream i [] = []
apply_keystream stream i (b ∷ s) = bit_xor b (stream i) ∷ apply_keystream stream (i + 1) s

module _ (G : Gordian) (K : Crypto) where
  open G use {Arid, arid_data}
  open K use {hkdf, keystream, hex_encode}

  unfoldable pub derive_key : Bytes → Arid → ℕ → Bytes
  derive_key salt arid output_len = hkdf salt (arid_data arid) output_len

  unfoldable pub derive_ipfs_key_name : Arid → Bytes
  unfolding derive_key
  derive_ipfs_key_name arid = hex_encode (derive_key (text "hubert-ipfs-ipns-v1") arid 32)

  unfoldable pub derive_mainline_key : Arid → Bytes
  unfolding derive_key
  derive_mainline_key arid = derive_key (text "hubert-mainline-dht-v1") arid 20

  -- The key stream of an ARID: a key of 32 bytes, and its last 12 bytes reversed. The conversions to
  -- arrays of these sizes cannot fail, since HKDF gives 32 bytes.
  abbrev pub stream : Arid → ℕ → ℕ
  stream arid =
      let key = hkdf (text "hubert-obfuscation-v1") (arid_data arid) 32 in
      keystream key (take 12 (reverse key))

  unfoldable pub obfuscate_with_arid : Arid → Bytes → Bytes
  unfolding apply_keystream
  obfuscate_with_arid arid [] = []
  obfuscate_with_arid arid (b ∷ s) = apply_keystream (stream arid) 0 (b ∷ s)
