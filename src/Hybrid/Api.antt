-- ===== src/Hybrid/Api.antt =====
-- What reference.rs uses of bc_envelope, dcbor and known_values beside `Gordian`, and what it relies
-- on. The functions that return a `Result` return an option, since their errors are dropped.
use hubert_rust.Base.{ℕ, ◌≡◌, ◌≢◌, Bool, true, ◌||◌, Option, none, some, List, []}
use hubert_rust.Base.Lists.{Bytes, any}
use hubert_rust.Gordian.{Gordian}

pub record Envelopes (G : Gordian) : Type 1 where
  pub Cbor : Type 0
  pub is_subject_unit : G.Envelope → Bool
  pub assertions : G.Envelope → List G.Envelope
  pub try_predicate : G.Envelope → Option G.Envelope
  pub try_object : G.Envelope → Option G.Envelope
  pub subject : G.Envelope → G.Envelope
  -- `as_known_value` and its `value`
  pub known_value : G.Envelope → Option ℕ
  pub try_leaf : G.Envelope → Option Cbor
  pub try_into_text : Cbor → Option Bytes
  pub arid_from_cbor : Cbor → Option G.Arid
  pub unit : G.Envelope
  -- `tagged_cbor().to_cbor_data()`
  pub tagged_cbor_data : G.Envelope → Bytes
  -- `add_assertion(predicate, object)`, of values turned into envelopes
  pub add_assertion : G.Envelope → G.Envelope → G.Envelope → G.Envelope
  pub from_known_value : ℕ → G.Envelope
  pub from_text : Bytes → G.Envelope
  pub from_arid : G.Arid → G.Envelope
  -- of an `i64`, by its 64 bits
  pub from_i64 : ℕ → G.Envelope
  -- `known_values::DEREFERENCE_VIA_RAW` and `ID_RAW`
  pub dereference_via : ℕ
  pub id : ℕ

-- An assertion has the predicate and the object that it was made of; adding one to an envelope adds
-- it to the assertions, in whatever place, and changes nothing else; leaves read back.
pub record AreEnvelopes {G : Gordian} (V : Envelopes G) : Type 0 where
  pub unit_is_unit : V.is_subject_unit V.unit ≡ true
  pub unit_is_bare : V.assertions V.unit ≡ []
  pub add_keeps_subject :
      (e p o : G.Envelope) → V.is_subject_unit (V.add_assertion e p o) ≡ V.is_subject_unit e
  pub assertion : G.Envelope → G.Envelope → G.Envelope
  pub any-add_assertion :
      (f : G.Envelope → Bool) (e p o : G.Envelope)
      → any f (V.assertions (V.add_assertion e p o)) ≡ (f (assertion p o) || any f (V.assertions e))
  pub predicate_of : (p o : G.Envelope) → V.try_predicate (assertion p o) ≡ some p
  pub object_of : (p o : G.Envelope) → V.try_object (assertion p o) ≡ some o
  pub known_value_of : (n : ℕ) → V.known_value (V.from_known_value n) ≡ some n
  pub known_value_of_text : (s : Bytes) → V.known_value (V.from_text s) ≡ none
  pub id_is_other : V.id ≢ V.dereference_via
  pub text_leaf :
      (s : Bytes)
      → (c : V.Cbor) × (V.try_leaf (V.subject (V.from_text s)) ≡ some c)
        × (V.try_into_text c ≡ some s)
  pub arid_leaf :
      (k : G.Arid)
      → (c : V.Cbor) × (V.try_leaf (V.subject (V.from_arid k)) ≡ some c)
        × (V.arid_from_cbor c ≡ some k)
