-- ===== src/Hybrid/References.antt =====
-- The reference envelopes that hybrid/reference.rs creates, as it reads them.
use hubert_rust.Base.{
  ℕ, ◌%◌, ◌^◌, ◌≡◌, refl, ◌∙◌, Bool, true, false, not, ◌||◌, Option, none, some, List, [], ◌∷◌,
  ◌==◌, ==_iff, arith, beq_refl,
}
use hubert_rust.Base.Lists.{text, any}
use hubert_rust.Base.Io.{Result, ok, err}
use hubert_rust.Error.{HybridError}
use hubert_rust.Gordian.{Gordian}
use hubert_rust.Hybrid.Api.{Envelopes, AreEnvelopes}
use hubert_rust.Hybrid.Reference.{
  create_reference_envelope, predicate_value, has_predicate, object_leaf, text_is, says_ipfs,
  is_reference_envelope, id_of, find_id, extract_reference_arid,
}

module _ (G : Gordian) (V : Envelopes G) (L : AreEnvelopes V) where
  open G use {Arid, arid_eq, Envelope}

  -- The three assertions of a reference.
  abbrev via : Envelope
  via = L.assertion (V.from_known_value V.dereference_via) (V.from_text (text "ipfs"))

  abbrev pointer : Arid → Envelope
  pointer k = L.assertion (V.from_known_value V.id) (V.from_arid k)

  abbrev size : ℕ → Envelope
  size n = L.assertion (V.from_text (text "size")) (V.from_i64 (n % 2 ^ 64))

  any-reference :
      (f : Envelope → Bool) (k : Arid) (n : ℕ)
      → any f (V.assertions (create_reference_envelope G V k n))
        ≡ (f (size n) || (f (pointer k) || (f via || false)))
  unfolding create_reference_envelope
  any-reference f k n =
      rw (L.any-add_assertion f, L.any-add_assertion f, L.any-add_assertion f, L.unit_is_bare) refl

  has_predicate-known :
      (value n : ℕ) (o : Envelope)
      → has_predicate G V value (L.assertion (V.from_known_value n) o) ≡ (n == value)
  unfolding has_predicate predicate_value
  has_predicate-known value n o =
      ground (arith, L.predicate_of (V.from_known_value n) o, L.known_value_of n)

  has_predicate-size : (value n : ℕ) → has_predicate G V value (size n) ≡ false
  unfolding has_predicate predicate_value
  has_predicate-size value n = ground (
    arith,
    L.predicate_of (V.from_text (text "size")) (V.from_i64 (n % 2 ^ 64)),
    L.known_value_of_text (text "size"),
  )

  unit_subject : (k : Arid) (n : ℕ) → V.is_subject_unit (create_reference_envelope G V k n) ≡ true
  unfolding create_reference_envelope
  unit_subject k n =
      L.add_keeps_subject _ _ _
      ∙ L.add_keeps_subject _ _ _
      ∙ L.add_keeps_subject _ _ _
      ∙ L.unit_is_unit

  via-says_ipfs : says_ipfs G V via ≡ true
  unfolding says_ipfs object_leaf text_is
  via-says_ipfs =
      let (c, leaf, spelled) = L.text_leaf (text "ipfs") in
      ground (
        arith,
        has_predicate-known V.dereference_via V.dereference_via (V.from_text (text "ipfs")),
        L.object_of (V.from_known_value V.dereference_via) (V.from_text (text "ipfs")),
      )

  is_reference_envelope-create :
      (k : Arid) (n : ℕ) → is_reference_envelope G V (create_reference_envelope G V k n) ≡ true
  unfolding is_reference_envelope
  is_reference_envelope-create k n =
      rw
        (
          unit_subject k n,
          any-reference (says_ipfs G V) k n,
          any-reference (has_predicate G V V.id) k n,
        )
        (ground
          (arith, via-says_ipfs, has_predicate-known V.id V.id (V.from_arid k), ==_iff V.id V.id))

  -- Whether an assertion gives the ARID `k`, or ends the search in another way.
  gives : Arid → Option (Result Arid HybridError) → Bool
  gives k none = false
  gives k (some (err e)) = false
  gives k (some (ok j)) = arid_eq.beq j k

  misleads : Arid → Option (Result Arid HybridError) → Bool
  misleads k none = false
  misleads k (some (err e)) = true
  misleads k (some (ok j)) = not (arid_eq.beq j k)

  find_id_lem :
      (k : Arid) (xs : List Envelope)
      → any (λ x. gives k (id_of G V x)) xs ≡ true
      → any (λ x. misleads k (id_of G V x)) xs ≡ false
      → find_id G V xs ≡ ok k
  unfolding find_id gives misleads
  find_id_lem k [] h m = ground arith
  find_id_lem k (x ∷ xs) h m = go (id_of G V x) refl (λ h' m'. find_id_lem k xs h' m')
    where
      go :
          (o : Option (Result Arid HybridError))
          → id_of G V x ≡ o
          → (any (λ y. gives k (id_of G V y)) xs ≡ true
              → any (λ y. misleads k (id_of G V y)) xs ≡ false
              → find_id G V xs ≡ ok k)
          → find_id G V (x ∷ xs) ≡ ok k
      go none q later = ground (arith, later)
      go (some (err e)) q later = ground arith
      go (some (ok j)) q later = ground (arith, arid_eq.beq_iff j k)

  id_of-size : (n : ℕ) → id_of G V (size n) ≡ none
  unfolding id_of
  id_of-size n = ground (arith, has_predicate-size V.id n)

  id_of-via : id_of G V via ≡ none
  unfolding id_of
  id_of-via =
      ground (
        arith,
        L.id_is_other,
        has_predicate-known V.id V.dereference_via (V.from_text (text "ipfs")),
      )

  id_of-pointer : (k : Arid) → id_of G V (pointer k) ≡ some (ok k)
  unfolding id_of object_leaf
  id_of-pointer k =
      let (c, leaf, spelled) = L.arid_leaf k in
      ground (
        arith,
        has_predicate-known V.id V.id (V.from_arid k),
        L.object_of (V.from_known_value V.id) (V.from_arid k),
      )

  -- The envelope that is made for an ARID and a size is recognised as a reference, and gives back
  -- that ARID, in whatever order the envelope keeps its assertions.
  pub extract_reference_arid-create :
      (k : Arid) (n : ℕ)
      → let reference = create_reference_envelope G V k n in
        (is_reference_envelope G V reference ≡ true) × (extract_reference_arid G V reference ≡ ok k)
  unfolding extract_reference_arid gives misleads
  extract_reference_arid-create k n =
      let recognised = is_reference_envelope-create k n in
      let reference = create_reference_envelope G V k n in
      let found =
        find_id_lem k (V.assertions reference)
          (any-reference (λ x. gives k (id_of G V x)) k n
            ∙ rw (id_of-size n, id_of-pointer k, id_of-via, beq_refl arid_eq k) refl)
          (any-reference (λ x. misleads k (id_of G V x)) k n
            ∙ rw (id_of-size n, id_of-pointer k, id_of-via, beq_refl arid_eq k) refl) in
      (recognised, ground (arith, recognised, found))
