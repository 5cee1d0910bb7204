-- ===== src/Collector/Trusted.antt =====
-- collector.py with lambda_ingestion.py: what the collector stores and publishes, the Lambda loads.
use Prim.Native.Char.{Char}
use Prim.Native.String.append
use Prim.Native.String.{◌++◌ as ◌&◌}
use fpl_data_relay.Prelude.{
  ℕ, ◌≡◌, ◌≤◌, refl, ap, sym, ◌∙◌, arith, String, Bool, true, false, some, List, [], ◌∷◌, ◌++◌,
  length, ltb, ◌==◌, string_key, ◌=?◌,
}
use fpl_data_relay.Result.{ok}
use fpl_data_relay.Domain.Time.{Datetime, is_aware}
use fpl_data_relay.Application.Jobs.{IngestionJob}
use fpl_data_relay.Application.Bundles.{
  max_collected_payload_bytes, PayloadBundle, bundle_fetched_at, fetched_at_must_be_timezone_aware,
  CollectedPayloadMessage, Pattern, matches, repeated, literal, is_hex,
}
use fpl_data_relay.LambdaIngestion.Ports.{Settings, Services, Libraries}
use fpl_data_relay.LambdaIngestion.Payload.{job_kind, is_variant, expected_key, load_payload_bundle}
use fpl_data_relay.Collector.{
  CollectorSettings, CollectorPorts, CollectorLibraries, strip_slashes, payload_key, new_message,
}

append_nil : (t : String) → String.[] & t ≡ t
append_nil t i = append.nil t i

append_cons : (c : Char) (s t : String) → (String.◌∷◌ c s) & t ≡ String.◌∷◌ c (s & t)
append_cons c s t i = append.cons c s t i

matches-literal : (s t : String) (p : Pattern) → matches (literal s p) (s & t) ≡ matches p t
unfolding matches
matches-literal String.[] t p = ap (matches p) (append_nil t)
matches-literal (String.◌∷◌ c s) t p =
    ap (matches (literal (String.◌∷◌ c s) p)) (append_cons c s t)
    ∙ ground (arith, matches-literal s t p)

matches-append :
    (p q : Pattern) (s t : String)
    → matches p s ≡ true
    → matches q t ≡ true
    → matches (p ++ q) (s & t) ≡ true
unfolding matches
matches-append [] q String.[] t h k = ap (matches q) (append_nil t) ∙ k
matches-append [] q (String.◌∷◌ c s) t h k = cc
matches-append (test ∷ p) q String.[] t h k = cc
matches-append (test ∷ p) q (String.◌∷◌ c s) t h k =
    ap (matches ((test ∷ p) ++ q)) (append_cons c s t) ∙ ground (arith, matches-append p q s t)

-- `%Y/%m/%d`
abbrev pub date_pattern : (ℕ → Bool) → Pattern
date_pattern is_digit =
    repeated 4 is_digit (literal "/" (repeated 2 is_digit (literal "/" (repeated 2 is_digit []))))

-- A random UUID.
abbrev pub uuid_pattern : Pattern
uuid_pattern = repeated 8 is_hex (
    literal "-" (
      repeated 4 is_hex (
        literal "-4" (
          repeated 3 is_hex
            (literal "-" (is_variant ∷ repeated 3 is_hex (literal "-" (repeated 12 is_hex []))))))))

matches_json : matches (literal ".json" []) ".json" ≡ true
unfolding matches
matches_json = refl

module _ {S T : Type 0} (settings : CollectorSettings) (ports : CollectorPorts S)
    (collector : CollectorLibraries) (lambda_settings : Settings) (services : Services T)
    (libraries : Libraries) where
  loads :
      (message : CollectedPayloadMessage) (bundle : PayloadBundle) (raw : List ℕ) (t : T)
      → message.bucket ≡ lambda_settings.payload_bucket
      → matches (expected_key lambda_settings services libraries message.job) message.key ≡ true
      → services.get_object message.bucket message.key t ≡ (ok (some raw), t)
      → length raw ≡ message.size_bytes
      → length raw ≤ max_collected_payload_bytes
      → libraries.sha256_hex raw ≡ message.sha256
      → libraries.read_bundle raw ≡ ok bundle
      → is_aware (bundle_fetched_at bundle) ≡ true
      → load_payload_bundle lambda_settings services libraries message t ≡ (ok bundle, t)
  unfolding load_payload_bundle fetched_at_must_be_timezone_aware
  loads message bundle raw t same key there size small hash reads aware =
      let bucket_ok : (message.bucket =? lambda_settings.payload_bucket) ≡ true =
        ground (arith, same, string_key.beq_iff message.bucket lambda_settings.payload_bucket) in
      let hash_ok : (libraries.sha256_hex raw =? message.sha256) ≡ true =
        ground (arith, hash, string_key.beq_iff (libraries.sha256_hex raw) message.sha256) in
      let size_ok : (length raw == message.size_bytes) ≡ true = ground (arith, size) in
      let small_ok : ltb max_collected_payload_bytes (length raw) ≡ false = ground (arith, small) in
      rw bucket_ok
        (rw key (rw there (rw size_ok (rw small_ok (rw hash_ok (rw reads (rw aware refl)))))))

  -- The two programs run with one bucket and one prefix, one hash, and dates of ten characters.
  pub record Agrees : Type 0 where
    pub bucket : lambda_settings.payload_bucket ≡ settings.payload_bucket
    pub prefix : lambda_settings.payload_prefix ≡ strip_slashes settings.payload_prefix
    pub hash : (bytes : List ℕ) → libraries.sha256_hex bytes ≡ collector.payload_sha256_bytes bytes
    pub dates :
        (d : Datetime) → matches (date_pattern libraries.is_digit) (collector.date_path d) ≡ true

  module _ (agree : Agrees) (job : IngestionJob) (bundle : PayloadBundle) (uuid : String)
      (random : matches uuid_pattern uuid ≡ true) where
    key_expected :
        matches
          (expected_key lambda_settings services libraries job)
          (payload_key settings ports collector (job_kind job) (bundle_fetched_at bundle) uuid)
        ≡ true
    unfolding payload_key
    key_expected =
        let date : String = collector.date_path (bundle_fetched_at bundle) in
        let last : String = uuid & ".json" in
        let file : Pattern = uuid_pattern ++ literal ".json" [] in
        let ends : matches file last ≡ true =
          matches-append uuid_pattern (literal ".json" []) uuid ".json" random (matches_json) in
        let dated : matches (date_pattern libraries.is_digit ++ literal "/" file)
              (date & ("/" & last))
            ≡ true =
          matches-append (date_pattern libraries.is_digit) (literal "/" file) date ("/" & last)
            (agree.dates (bundle_fetched_at bundle)) (matches-literal "/" last file ∙ ends) in
        rw agree.prefix (
          matches-literal (strip_slashes settings.payload_prefix) _ _
          ∙ matches-literal "/v2/" _ _
          ∙ matches-literal (job_kind job) _ _
          ∙ matches-literal "/" (date & ("/" & last))
              (date_pattern libraries.is_digit ++ literal "/" file)
          ∙ dated)

    -- What the collector has stored and described, within the maximum size and with an aware time, the
    -- Lambda loads back as the same bundle, where the object is still there, its JSON reads back, the UUID is a random
    -- one, and the two programs agree on bucket, prefix, hash and the form of dates.
    pub new_message-load_payload_bundle :
        (t : T)
        → libraries.read_bundle (collector.canonical_bundle_bytes bundle) ≡ ok bundle
        → is_aware (bundle_fetched_at bundle) ≡ true
        → length (collector.canonical_bundle_bytes bundle) ≤ max_collected_payload_bytes
        → services.get_object settings.payload_bucket
            (payload_key settings ports collector (job_kind job) (bundle_fetched_at bundle) uuid)
            t
          ≡ (ok (some (collector.canonical_bundle_bytes bundle)), t)
        → load_payload_bundle lambda_settings services libraries
            (new_message settings ports collector job bundle uuid)
            t
          ≡ (ok bundle, t)
    unfolding new_message
    new_message-load_payload_bundle t reads aware small there =
        loads (new_message settings ports collector job bundle uuid) bundle
          (collector.canonical_bundle_bytes bundle) t (sym agree.bucket) key_expected there refl
          small (agree.hash _) reads aware
