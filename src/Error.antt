-- ===== src/Error.antt =====
-- error.rs and the four error.rs below it: the error types, with a library's error as its `Display`
-- text, and what `to_string` prints.
use hubert_rust.Base.{ℕ, ◌++◌}
use hubert_rust.Base.Lists.{Bytes, text}
use hubert_rust.Text.Decimal.{decimal}

pub data MainlineError : Type 0 where
  value_too_large : ℕ → MainlineError
  dht_error : Bytes → MainlineError
  put_query_error : Bytes → MainlineError
  decode_id_error : Bytes → MainlineError
  put_mutable_error : Bytes → MainlineError
  io : Bytes → MainlineError

pub data IpfsError : Type 0 where
  envelope_too_large : ℕ → IpfsError
  daemon_error : Bytes → IpfsError
  timeout : IpfsError
  unexpected_ipns_path_format : Bytes → IpfsError

-- `crate::server::Error`
pub data StoreError : Type 0 where
  general : Bytes → StoreError
  network_error : Bytes → StoreError
  parse_error : Bytes → StoreError
  reqwest_error : Bytes → StoreError
  io : Bytes → StoreError
  sqlite : Bytes → StoreError
  system_time_error : Bytes → StoreError

pub data HybridError : Type 0 where
  content_not_found : HybridError
  not_reference_envelope : HybridError
  invalid_reference_arid : HybridError
  no_id_assertion : HybridError

pub data Error : Type 0 where
  already_exists : Bytes → Error
  not_found : Error
  invalid_arid : Error
  envelope : Bytes → Error
  cbor : Bytes → Error
  mainline : MainlineError → Error
  ipfs : IpfsError → Error
  server : StoreError → Error
  hybrid : HybridError → Error
  io : Bytes → Error

mainline_text : MainlineError → Bytes
mainline_text (value_too_large size) =
    text "Value size " ++ (decimal size ++ text " exceeds DHT limit of 1000 bytes")
mainline_text (dht_error e) = text "DHT operation error: " ++ e
mainline_text (put_query_error e) = text "Put query error: " ++ e
mainline_text (decode_id_error e) = text "Decode ID error: " ++ e
mainline_text (put_mutable_error e) = text "Put mutable error: " ++ e
mainline_text (io e) = text "IO error: " ++ e

ipfs_text : IpfsError → Bytes
ipfs_text (envelope_too_large size) =
    text "Envelope size " ++ (decimal size ++ text " exceeds practical limit")
ipfs_text (daemon_error e) = text "IPFS daemon error: " ++ e
ipfs_text timeout = text "Operation timed out"
ipfs_text (unexpected_ipns_path_format path) = text "Unexpected IPNS path format: " ++ path

store_text : StoreError → Bytes
store_text (general e) = text "Server error: " ++ e
store_text (network_error e) = text "Network error: " ++ e
store_text (parse_error e) = text "Parse error: " ++ e
store_text (reqwest_error e) = text "Reqwest error: " ++ e
store_text (io e) = text "IO error: " ++ e
store_text (sqlite e) = text "SQLite error: " ++ e
store_text (system_time_error e) = text "System time error: " ++ e

hybrid_text : HybridError → Bytes
hybrid_text content_not_found = text "Referenced IPFS content not found"
hybrid_text not_reference_envelope = text "Not a reference envelope"
hybrid_text invalid_reference_arid = text "Invalid ARID in reference envelope"
hybrid_text no_id_assertion = text "No id assertion found in reference envelope"

unfoldable pub to_string : Error → Bytes
unfolding mainline_text ipfs_text store_text hybrid_text
to_string (already_exists arid) = arid ++ text " already exists"
to_string not_found = text "Not found"
to_string invalid_arid = text "Invalid ARID format"
to_string (envelope e) = text "Envelope error: " ++ e
to_string (cbor e) = text "CBOR error: " ++ e
to_string (mainline e) = text "Mainline DHT error: " ++ mainline_text e
to_string (ipfs e) = text "IPFS error: " ++ ipfs_text e
to_string (server e) = text "Server error: " ++ store_text e
to_string (hybrid e) = text "Hybrid error: " ++ hybrid_text e
to_string (io e) = text "IO error: " ++ e
