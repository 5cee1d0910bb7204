-- ===== src/LambdaIngestion/Payload.antt =====
-- lambda_ingestion.py, `load_payload_bundle`: the trust boundary to S3.
use fpl_data_relay.Prelude.{
  ℕ, ◌≡◌, ◌≤◌, refl, ap, sym, ◌∙◌, String, Bool, true, not, ◌||◌, Option, none, some, List, [], ◌∷◌,
  arith, ◌==◌, ltb, length, ◌=?◌, string_key,
}
use fpl_data_relay.Result.{Result, ok, value_error, runtime_error, ◌>>=◌ as ◌then◌, >>=-inv}
use fpl_data_relay.Exec.{
  Exec, return, raise, lift, raise_when, raise_when-inv, bind-inv, ◌>>=◌, ◌>>◌,
}
use fpl_data_relay.Application.Jobs.{IngestionJob, reference, live}
use fpl_data_relay.Application.Bundles.{
  max_collected_payload_bytes, PayloadBundle, CollectedPayloadMessage, Pattern, matches, repeated,
  literal, is_hex, fetched_at_must_be_timezone_aware, fetched_at_aware, bundle_fetched_at,
}
use fpl_data_relay.Domain.Time.{is_aware}
use fpl_data_relay.LambdaIngestion.Ports.{Settings, Services, Libraries}

abbrev pub job_kind : IngestionJob → String
job_kind reference = "reference"
job_kind (live job) = "live"

-- `if value is None: raise e`
abbrev pub require_body : {S : Type 0} → Option (List ℕ) → Exec S (List ℕ)
require_body none = raise (runtime_error "S3 GetObject response did not contain a readable body.")
require_body (some body) = return body

require_body-inv :
    {S B : Type 0} (response : Option (List ℕ)) (rest : List ℕ → Exec S B) (s s' : S) {b : B}
    → (require_body response >>= rest) s ≡ (ok b, s')
    → (raw : List ℕ) × (response ≡ some raw) × (rest raw s ≡ (ok b, s'))
require_body-inv none rest s s' h = cc
require_body-inv (some raw) rest s s' h = (raw, refl, h)

-- `[89ab]`
abbrev pub is_variant : ℕ → Bool
is_variant c = c == b'8' || c == b'9' || c == b'a' || c == b'b'

module _ {S : Type 0} (settings : Settings) (services : Services S) (libraries : Libraries) where
  open settings use {payload_bucket, payload_prefix}
  open services use {get_object}
  open libraries use {sha256_hex, is_digit, read_bundle}

  abbrev pub expected_key : IngestionJob → Pattern
  expected_key job = literal payload_prefix (
      literal "/v2/" (
        literal (job_kind job) (
          literal "/" (
            repeated 4 is_digit (
              literal "/" (
                repeated 2 is_digit (
                  literal "/" (
                    repeated 2 is_digit (
                      literal "/" (
                        repeated 8 is_hex (
                          literal "-" (
                            repeated 4 is_hex (
                              literal "-4" (
                                repeated 3 is_hex (
                                  literal "-" (
                                    is_variant
                                    ∷ repeated 3 is_hex (
                                        literal "-"
                                          (repeated 12 is_hex (literal ".json" [])))))))))))))))))))

  -- `PAYLOAD_BUNDLE_ADAPTER.validate_json`
  abbrev pub validate_json : List ℕ → Result PayloadBundle
  validate_json raw = read_bundle raw then fetched_at_must_be_timezone_aware

  unfoldable pub load_payload_bundle : CollectedPayloadMessage → Exec S PayloadBundle
  unfolding matches
  load_payload_bundle message = do
    raise_when (not (message.bucket =? payload_bucket))
        (value_error "Collected payload references an unexpected S3 bucket.")
    raise_when (not (matches (expected_key message.job) message.key))
        (value_error "Collected payload references an unexpected S3 key.")
    response ← get_object message.bucket message.key
    raw_payload ← require_body response
    raise_when (not (length raw_payload == message.size_bytes))
        (value_error "Collected payload size does not match its SQS message.")
    raise_when (ltb max_collected_payload_bytes (length raw_payload))
        (value_error "Collected payload exceeds the maximum size.")
    raise_when (not (sha256_hex raw_payload =? message.sha256))
        (value_error "Collected payload checksum does not match its SQS message.")
    lift (validate_json raw_payload)

  -- What a returned bundle has behind it.
  pub record Trusted (message : CollectedPayloadMessage) (s s' : S) (bundle : PayloadBundle)
      : Type 0 where
    pub raw : List ℕ
    pub bucket : message.bucket ≡ payload_bucket
    pub key : matches (expected_key message.job) message.key ≡ true
    pub body : get_object payload_bucket message.key s ≡ (ok (some raw), s')
    pub size : length raw ≡ message.size_bytes
    pub bounded : length raw ≤ max_collected_payload_bytes
    pub hash : sha256_hex raw ≡ message.sha256
    pub parsed : read_bundle raw ≡ ok bundle
    pub aware : is_aware (bundle_fetched_at bundle) ≡ true

  read_body :
      {bucket : String} (key : String) (s s' t : S) (response : Option (List ℕ)) (raw : List ℕ)
      → bucket ≡ payload_bucket
      → get_object bucket key s ≡ (ok response, t)
      → response ≡ some raw
      → t ≡ s'
      → get_object payload_bucket key s ≡ (ok (some raw), s')
  read_body key s s' t response raw b got r e = cc (b, got, r, e)

  -- A bundle that is returned was read from the configured bucket under a key of its job's kind,
  -- with the size and the hash of its message, and is what the bytes parse to.
  pub load_payload_bundle-Trusted :
      (message : CollectedPayloadMessage) (s s' : S) (bundle : PayloadBundle)
      → load_payload_bundle message s ≡ (ok bundle, s')
      → Trusted message s s' bundle
  unfolding load_payload_bundle
  load_payload_bundle-Trusted message s s' bundle h =
      let (bucket, h1) = raise_when-inv (not (message.bucket =? payload_bucket)) _ _ s s' h in
      let same_bucket : message.bucket ≡ payload_bucket =
        ground (arith, bucket, string_key.beq_iff message.bucket payload_bucket) in
      let (key, h2) =
        raise_when-inv (not (matches (expected_key message.job) message.key)) _ _ s s' h1 in
      let (response, t, got, h3) = bind-inv (get_object message.bucket message.key) _ s s' h2 in
      let (raw, some_raw, h4) = require_body-inv response _ t s' h3 in
      let (size, h5) = raise_when-inv (not (length raw == message.size_bytes)) _ _ t s' h4 in
      let (bounded, h6) =
        raise_when-inv (ltb max_collected_payload_bytes (length raw)) _ _ t s' h5 in
      let (hash, h7) = raise_when-inv (not (sha256_hex raw =? message.sha256)) _ _ t s' h6 in
      let (parsed, read, valid) = >>=-inv (read_bundle raw) _ (ap (λ p. p.0) h7) in
      let (same, aware) = fetched_at_aware parsed bundle valid in
      record {
        raw = raw;
        bucket = same_bucket;
        key = ground (arith, key);
        body =
            read_body message.key s s' t response raw same_bucket got some_raw (ap (λ p. p.1) h7);
        size = ground (arith, size);
        bounded = ground (arith, bounded);
        hash = ground (arith, hash, string_key.beq_iff (sha256_hex raw) message.sha256);
        parsed = read ∙ ap ok same;
        aware = ap (λ b. is_aware (bundle_fetched_at b)) (sym same) ∙ aware;
      }
