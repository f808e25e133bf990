-- ===== src/Gordian.antt =====
-- The libraries that the program stores data of: ARIDs (bc_components), envelopes (bc_envelope) and
-- their UR and CBOR codecs (bc_ur, dcbor). They are a parameter of the model; a library's error is
-- its `Display` text.
use hubert_rust.Base.{◌≡◌, ◌≢◌, Option, some, [], Eq}
use hubert_rust.Base.Lists.{Bytes}
use hubert_rust.Base.Io.{Result, ok}
use hubert_rust.Error.{Error}
use hubert_rust.Text.Graphic.{AllGraphic}

pub record Gordian : Type 1 where
  pub Arid : Type 0
  pub arid_eq : Eq Arid
  -- `ARID::data`, `ur_string`, `ARID::from_ur_string`
  pub arid_data : Arid → Bytes
  pub arid_ur : Arid → Bytes
  pub arid_from_ur : Bytes → Option Arid
  pub Envelope : Type 0
  -- `ur_string`, `Envelope::from_ur_string`
  pub envelope_ur : Envelope → Bytes
  pub envelope_from_ur : Bytes → Result Envelope Bytes
  -- `to_cbor_data`, `Envelope::try_from_cbor_data`
  pub to_cbor_data : Envelope → Bytes
  pub from_cbor_data : Bytes → Result Envelope Bytes
  -- what `?` makes of an error of the UR and of the CBOR decoder
  pub ur_error : Bytes → Error
  pub cbor_error : Bytes → Error

-- The codecs read back what they wrote. A UR is made of visible ASCII characters.
pub record IsLawful (G : Gordian) : Type 0 where
  pub arid_round_trip : (a : G.Arid) → G.arid_from_ur (G.arid_ur a) ≡ some a
  pub envelope_round_trip : (e : G.Envelope) → G.envelope_from_ur (G.envelope_ur e) ≡ ok e
  pub cbor_round_trip : (e : G.Envelope) → G.from_cbor_data (G.to_cbor_data e) ≡ ok e
  pub arid_graphic : (a : G.Arid) → AllGraphic (G.arid_ur a)
  pub arid_ne_nil : (a : G.Arid) → G.arid_ur a ≢ []
  pub envelope_graphic : (e : G.Envelope) → AllGraphic (G.envelope_ur e)
  pub envelope_ne_nil : (e : G.Envelope) → G.envelope_ur e ≢ []
