-- ===== src/Storage/Payload.antt =====
-- What the repository relies on of serde_json and sha2, and the code that calls them.
use oppa.Common.{
  ℕ, ◌≡◌, ◌↔◌, Bool, true, Option, some, Result, ok, ensure, ok_or, ◌>>=◌, ◌>>◌, leb, if◌then◌else◌,
}
use oppa.Common.Text.{Text, text, text_eq, byte_len}
use oppa.Storage.Schema.{StorageError, json, invalid_input, JobRow}

-- `serde_json::Value` with its equality, `to_string` and `from_str`; `digest` is the hexadecimal
-- SHA-256 of a text's bytes. The law is serde_json's documented round trip.
pub record JsonCodec (Value : Type 0) : Type 0 where
  pub value_eq : Value → Value → Bool
  pub value_eq_iff : (a b : Value) → (value_eq a b ≡ true) ↔ (a ≡ b)
  pub to_string : Value → Option Text
  pub from_str : Text → Option Value
  pub from_str-to_string : (v : Value) (t : Text) → to_string v ≡ some t → from_str t ≡ some v
  pub digest : Text → Text

module _ {Value : Type 0} ⦃codec : JsonCodec Value⦄ where
  unfoldable pub bounded_json : Value → ℕ → Result StorageError Text
  bounded_json value maximum = do
    encoded ← ok_or (codec.to_string value) json
    ensure (leb (byte_len encoded) maximum) invalid_input
    ok encoded

  unfoldable pub payload_fingerprint : Value → Result StorageError Text
  payload_fingerprint payload = do
    canonical ← ok_or (codec.to_string payload) json
    ok (codec.digest canonical)

  -- The comparison of a redelivery with the stored row. The body of a finished job is pruned to
  -- null, and then the fingerprints are compared.
  unfoldable pub payload_matches : JobRow → Text → Value → Result StorageError Bool
  payload_matches row payload_sha256 incoming =
      if text_eq row.payload_json (text "null")
      then ok (text_eq row.payload_sha256 payload_sha256)
      else do
        existing ← ok_or (codec.from_str row.payload_json) json
        ok (codec.value_eq existing incoming)
