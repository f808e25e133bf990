-- ===== src/Examples/KeyExamples.antt =====
-- Small ciphers, and the theorems on AridDerivation at them.
use Prim.Native.Nat.{bit_xor}
use hubert_rust.Base.{ℕ, zero, suc, ◌-◌, ◌<◌, ◌+◌, ◌*◌, ◌≡◌, refl, [], ◌∷◌, arith, bytes_eq}
use hubert_rust.Base.Lists.{Bytes, length, get_or}
use hubert_rust.AridDerivation.{Crypto, IsCrypto, obfuscate_with_arid}
use hubert_rust.AridDerivation.Laws.{cipher_key, obfuscate_with_arid_lem}
use hubert_rust.Mainline.Network.{}
use hubert_rust.Hybrid.Reference.{}
use hubert_rust.Examples.Toys.{toy}

abbrev pub fill : ℕ → ℕ → Bytes
fill zero x = []
fill (suc n) x = x ∷ fill n x

length-fill : (n x : ℕ) → length (fill n x) ≡ n
length-fill zero x = refl
length-fill (suc n) x = omega (arith, length-fill n x)

abbrev pub double : Bytes → Bytes
double [] = []
double (b ∷ s) = b ∷ b ∷ double s

length-double : (s : Bytes) → length (double s) ≡ 2 * length s
length-double [] = omega arith
length-double (b ∷ s) = omega (arith, length-double s)

abbrev pub ciphers : Crypto
ciphers = record {
  hkdf = λ salt ikm n. fill n (get_or ikm 0 7);
  keystream = λ key iv i. get_or key 0 1 + get_or iv 0 1 + i;
  hex_encode = double;
}

ciphers-IsCrypto : IsCrypto ciphers
ciphers-IsCrypto = record {
  length-hkdf = λ salt ikm n. length-fill n (get_or ikm 0 7);
  length-hex_encode = length-double;
}

obfuscate_with_arid_lem_example :
    (iv : Bytes) × (length iv ≡ 12)
    × ((j : ℕ) → j < 12 → get_or iv j 0 ≡ get_or (cipher_key toy ciphers 3) (31 - j) 0)
    × ((s : Bytes) (i : ℕ)
        → i < length s
        → get_or (obfuscate_with_arid toy ciphers 3 s) i 0
          ≡ bit_xor (get_or s i 0) (ciphers.keystream (cipher_key toy ciphers 3) iv i))
    × ((s : Bytes) → length (obfuscate_with_arid toy ciphers 3 s) ≡ length s)
    × ((s : Bytes) → obfuscate_with_arid toy ciphers 3 (obfuscate_with_arid toy ciphers 3 s) ≡ s)
obfuscate_with_arid_lem_example = obfuscate_with_arid_lem toy ciphers ciphers-IsCrypto 3
