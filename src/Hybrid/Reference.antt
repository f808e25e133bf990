-- ===== src/Hybrid/Reference.antt =====
-- hybrid/reference.rs: the envelopes that stand in the DHT for content in IPFS.
use hubert_rust.Base.{
  ℕ, ◌%◌, ◌^◌, Bool, false, ◌&&◌, Option, none, some, List, [], ◌∷◌, ◌==◌, bytes_beq, if◌then◌else◌,
}
use hubert_rust.Base.Lists.{Bytes, text, any}
use hubert_rust.Base.Io.{Result, ok, err}
use hubert_rust.Error.{HybridError, not_reference_envelope, invalid_reference_arid, no_id_assertion}
use hubert_rust.Gordian.{Gordian}
use hubert_rust.Hybrid.Api.{Envelopes}

module _ (G : Gordian) (V : Envelopes G) where
  open G use {Arid, Envelope}
  open V use {
    Cbor, is_subject_unit, assertions, try_predicate, try_object, subject, known_value, try_leaf,
    try_into_text, arid_from_cbor, unit, add_assertion, from_known_value, from_text, from_arid,
    from_i64, dereference_via, id,
  }

  -- The size is cast to `i64`, which keeps its 64 bits.
  unfoldable pub create_reference_envelope : Arid → ℕ → Envelope
  create_reference_envelope reference_arid actual_size =
      add_assertion
        (add_assertion
          (add_assertion unit (from_known_value dereference_via) (from_text (text "ipfs")))
          (from_known_value id) (from_arid reference_arid))
        (from_text (text "size")) (from_i64 (actual_size % 2 ^ 64))

  -- The known value that is an assertion's predicate, if it is one.
  unfoldable pub predicate_value : Envelope → Option ℕ
  predicate_value assertion = elim (try_predicate assertion) [
    | none ↦ none
    | some predicate ↦ known_value predicate
  ]

  unfoldable pub has_predicate : ℕ → Envelope → Bool
  unfolding predicate_value
  has_predicate value assertion = elim (predicate_value assertion) [
    | none ↦ false
    | some kv ↦ kv == value
  ]

  -- The leaf that is the subject of an assertion's object.
  unfoldable pub object_leaf : Envelope → Option Cbor
  object_leaf assertion = elim (try_object assertion) [
    | none ↦ none
    | some object ↦ try_leaf (subject object)
  ]

  unfoldable pub text_is : Bytes → Cbor → Bool
  text_is expected cbor = elim (try_into_text cbor) [ none ↦ false | some s ↦ bytes_beq s expected ]

  -- `dereferenceVia: "ipfs"`
  unfoldable pub says_ipfs : Envelope → Bool
  unfolding has_predicate object_leaf text_is
  says_ipfs assertion =
      has_predicate dereference_via assertion
      && elim (object_leaf assertion) [ none ↦ false | some cbor ↦ text_is (text "ipfs") cbor ]

  unfoldable pub is_reference_envelope : Envelope → Bool
  unfolding says_ipfs has_predicate
  is_reference_envelope envelope =
      is_subject_unit envelope
      && (any says_ipfs (assertions envelope) && any (has_predicate id) (assertions envelope))

  -- What an assertion answers to the search for the ARID; `none`: the search goes on.
  unfoldable pub id_of : Envelope → Option (Result Arid HybridError)
  unfolding has_predicate object_leaf
  id_of assertion =
      if has_predicate id assertion
      then elim (object_leaf assertion) [
        | none ↦ none
        | some cbor ↦ elim (arid_from_cbor cbor) [
          | none ↦ some (err invalid_reference_arid)
          | some arid ↦ some (ok arid)
        ]
      ]
      else none

  unfoldable pub find_id : List Envelope → Result Arid HybridError
  unfolding id_of
  find_id [] = err no_id_assertion
  find_id (assertion ∷ rest) =
      let later = find_id rest in elim (id_of assertion) [ none ↦ later | some answer ↦ answer ]

  unfoldable pub extract_reference_arid : Envelope → Result Arid HybridError
  unfolding is_reference_envelope find_id
  extract_reference_arid envelope =
      if is_reference_envelope envelope
      then find_id (assertions envelope)
      else err not_reference_envelope
