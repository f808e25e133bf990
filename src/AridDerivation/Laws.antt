-- ===== src/AridDerivation/Laws.antt =====
-- Obfuscation byte by byte and applied twice, and the lengths of what arid_derivation.rs returns.
use Prim.Native.Nat.{bit_xor}
use mathlib.Core.List.{reverse}
use hubert_rust.Base.Reverse.{length-reverse, get_or-reverse, get_or-take}
use hubert_rust.Base.{ℕ, zero, suc, ◌-◌, ◌<◌, ◌+◌, ◌≡◌, refl, ◌∙◌, ap, [], ◌∷◌, arith}
use hubert_rust.Base.Lists.{Bytes, text, length, length-take, get_or, take}
use hubert_rust.Base.Xor.{bit_xor_twice}
use hubert_rust.Gordian.{Gordian}
use hubert_rust.AridDerivation.{
  Crypto, IsCrypto, apply_keystream, derive_ipfs_key_name, derive_mainline_key, obfuscate_with_arid,
  stream,
}

apply_keystream_twice :
    (stream : ℕ → ℕ) (i : ℕ) (s : Bytes) → apply_keystream stream i (apply_keystream stream i s) ≡ s
unfolding apply_keystream
apply_keystream_twice stream i [] = refl
apply_keystream_twice stream i (b ∷ s) =
    cc (bit_xor_twice b (stream i), apply_keystream_twice stream (i + 1) s)

length-apply_keystream :
    (stream : ℕ → ℕ) (i : ℕ) (s : Bytes) → length (apply_keystream stream i s) ≡ length s
unfolding apply_keystream
length-apply_keystream stream i [] = refl
length-apply_keystream stream i (b ∷ s) = ap suc (length-apply_keystream stream (i + 1) s)

get_or-apply_keystream :
    (stream : ℕ → ℕ) (i : ℕ) (s : Bytes) (j : ℕ)
    → j < length s
    → get_or (apply_keystream stream i s) j 0 ≡ bit_xor (get_or s j 0) (stream (i + j))
unfolding apply_keystream
get_or-apply_keystream stream i [] j h = absurd (omega arith)
get_or-apply_keystream stream i (b ∷ s) zero h = ap (λ m. bit_xor b (stream m)) (omega arith)
get_or-apply_keystream stream i (b ∷ s) (suc j) h =
    get_or-apply_keystream stream (i + 1) s j (omega arith)
    ∙ ap (λ m. bit_xor (get_or s j 0) (stream m)) (omega arith)

module _ (G : Gordian) (K : Crypto) where
  open G use {Arid}

  -- Whatever the bytes, obfuscating them twice with one ARID gives them back.
  pub obfuscate_with_arid_twice :
      (k : Arid) (s : Bytes) → obfuscate_with_arid G K k (obfuscate_with_arid G K k s) ≡ s
  unfolding obfuscate_with_arid
  obfuscate_with_arid_twice k [] = refl
  obfuscate_with_arid_twice k (b ∷ s) = apply_keystream_twice (stream G K k) 0 (b ∷ s)

  -- Obfuscation keeps the number of bytes.
  pub length-obfuscate_with_arid :
      (k : Arid) (s : Bytes) → length (obfuscate_with_arid G K k s) ≡ length s
  unfolding obfuscate_with_arid
  length-obfuscate_with_arid k [] = refl
  length-obfuscate_with_arid k (b ∷ s) = length-apply_keystream (stream G K k) 0 (b ∷ s)

  get_or-obfuscate_with_arid :
      (k : Arid) (s : Bytes) (i : ℕ)
      → i < length s
      → get_or (obfuscate_with_arid G K k s) i 0 ≡ bit_xor (get_or s i 0) (stream G K k i)
  unfolding obfuscate_with_arid
  get_or-obfuscate_with_arid k [] i h = absurd (omega arith)
  get_or-obfuscate_with_arid k (b ∷ s) i h =
      get_or-apply_keystream (stream G K k) 0 (b ∷ s) i h
      ∙ ap (λ m. bit_xor (get_or (b ∷ s) i 0) (stream G K k m)) (omega arith)

  -- The key of the cipher that obfuscates what is stored under an ARID.
  abbrev pub cipher_key : Arid → Bytes
  cipher_key k = K.hkdf (text "hubert-obfuscation-v1") (G.arid_data k) 32

  -- Obfuscation combines each byte with the byte at its place in the ChaCha20 key stream, for the key
  -- of 32 bytes that HKDF derives from the ARID under the salt `hubert-obfuscation-v1` and for an
  -- initialisation vector of 12 bytes, of which the one at a place `j` is the key's at `31 - j`. It
  -- keeps the number of bytes, and undoes itself.
  pub obfuscate_with_arid_lem :
      IsCrypto K
      → (k : Arid)
      → (iv : Bytes) × (length iv ≡ 12)
        × ((j : ℕ) → j < 12 → get_or iv j 0 ≡ get_or (cipher_key k) (31 - j) 0)
        × ((s : Bytes) (i : ℕ)
            → i < length s
            → get_or (obfuscate_with_arid G K k s) i 0
              ≡ bit_xor (get_or s i 0) (K.keystream (cipher_key k) iv i))
        × ((s : Bytes) → length (obfuscate_with_arid G K k s) ≡ length s)
        × ((s : Bytes) → obfuscate_with_arid G K k (obfuscate_with_arid G K k s) ≡ s)
  obfuscate_with_arid_lem L k =
      let size = L.length-hkdf (text "hubert-obfuscation-v1") (G.arid_data k) 32 in
      (
        take 12 (reverse (cipher_key k)),
        omega
            (arith, length-take 12 (reverse (cipher_key k)), length-reverse 0 (cipher_key k), size),
        λ j h.
            get_or-take 0 12 (reverse (cipher_key k)) j h
            ∙ get_or-reverse 0 (cipher_key k) j (31 - j) (omega arith),
        get_or-obfuscate_with_arid k,
        length-obfuscate_with_arid k,
        obfuscate_with_arid_twice k,
      )

  -- An IPNS key name has 64 characters, and a Mainline key has 20 bytes.
  pub derived_lengths :
      IsCrypto K
      → (k : Arid)
      → (length (derive_ipfs_key_name G K k) ≡ 64) × (length (derive_mainline_key G K k) ≡ 20)
  unfolding derive_ipfs_key_name derive_mainline_key
  derived_lengths L k = (
    L.length-hex_encode _
        ∙ omega (arith, L.length-hkdf (text "hubert-ipfs-ipns-v1") (G.arid_data k) 32),
    L.length-hkdf (text "hubert-mainline-dht-v1") (G.arid_data k) 20,
  )
