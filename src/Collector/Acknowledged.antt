-- ===== src/Collector/Acknowledged.antt =====
-- collector.py: a job is deleted only after its payload is stored and its message is published.
use mathlib.Core.Path.{subst}
use fpl_data_relay.Prelude.{
  ℕ, ◌≡◌, ◌≤◌, refl, ap, sym, ◌∙◌, arith, String, false, List, length, ltb,
}
use fpl_data_relay.Result.{Error, Result, ok, err}
use fpl_data_relay.Exec.{Keeps, Keeps-bind, Keeps-lift, Lands, Leads, Leads-check}
use fpl_data_relay.Application.Jobs.{IngestionJob, reference, live}
use fpl_data_relay.Application.Bundles.{
  max_collected_payload_bytes, PayloadBundle, bundle_fetched_at, fetched_at_must_be_timezone_aware,
  CollectedPayloadMessage, validate_message,
}
use fpl_data_relay.Exec.Calls.{Leads-lift, Leads-after, Lands-lift, Lands-called}
use fpl_data_relay.LambdaIngestion.Payload.{job_kind}
use fpl_data_relay.Collector.{
  CollectorSettings, CollectorPorts, CollectorLibraries, SqsMessage, reference_bundle, live_bundle,
  collect, payload_key, new_message, forward, deliver, process_message,
}

validated : (m n : CollectedPayloadMessage) → validate_message m ≡ ok n → m ≡ n
unfolding validate_message
validated m n h = ground arith

ltb→le : (a b : ℕ) → ltb a b ≡ false → b ≤ a
ltb→le a b h = ground arith

module _ {S : Type 0} (settings : CollectorSettings) (ports : CollectorPorts S)
    (libraries : CollectorLibraries) (P : S → Type 0) where
  -- Every operation keeps `P`, but for a deletion that returns.
  pub record OthersKeep : Type 0 where
    pub bootstrap : Keeps P ports.fetch_bootstrap_static
    pub fixtures : Keeps P ports.fetch_fixtures
    pub current_fixtures : (event_id : ℕ) → Keeps P (ports.fetch_current_fixtures event_id)
    pub event_status : Keeps P ports.fetch_event_status
    pub event_live : (event_id : ℕ) → Keeps P (ports.fetch_event_live event_id)
    pub puts : (bucket key : String) (body : List ℕ) → Keeps P (ports.put_object bucket key body)
    pub sends : (m : CollectedPayloadMessage) → Keeps P (ports.send_message m)
    pub now : Keeps P ports.utc_now
    pub uuids : Keeps P ports.uuid4
    pub refuses :
        (receipt : String) (s : S) (e : Error)
        → P s
        → (ports.delete_message receipt s).0 ≡ err e
        → P (ports.delete_message receipt s).1

  -- The last calls of a job that is done: the upload, the message about it, and the deletion.
  pub record Acknowledged (message : SqsMessage) (end_world : S) : Type 0 where
    pub job : IngestionJob
    pub bundle : PayloadBundle
    pub uuid : String
    pub before : S
    pub stored : S
    pub sent : S
    pub was_job : libraries.read_job message.body ≡ ok job
    pub undeleted : P before × P stored × P sent
    pub bounded : length (libraries.canonical_bundle_bytes bundle) ≤ max_collected_payload_bytes
    pub upload :
        ports.put_object settings.payload_bucket
          (payload_key settings ports libraries (job_kind job) (bundle_fetched_at bundle) uuid)
          (libraries.canonical_bundle_bytes bundle)
          before
        ≡ (ok tt, stored)
    pub valid :
        validate_message (new_message settings ports libraries job bundle uuid)
        ≡ ok (new_message settings ports libraries job bundle uuid)
    pub publication :
        ports.send_message (new_message settings ports libraries job bundle uuid) stored
        ≡ (ok tt, sent)
    pub deletion : ports.delete_message message.receipt_handle sent ≡ (ok tt, end_world)

  module _ (k : OthersKeep) where
    collect-Keeps : (job : IngestionJob) → Keeps P (collect settings ports libraries job)
    unfolding collect
    collect-Keeps reference = Keeps-bind P ports.utc_now _ k.now λ now.
        Keeps-bind P ports.fetch_bootstrap_static _ k.bootstrap λ bootstrap.
          Keeps-bind P ports.fetch_fixtures _ k.fixtures λ fixtures.
            Keeps-bind P ports.fetch_event_status _ k.event_status λ status.
              Keeps-lift P
                (fetched_at_must_be_timezone_aware (reference_bundle now bootstrap fixtures status))
    collect-Keeps (live job) = Keeps-bind P ports.utc_now _ k.now λ now.
        Keeps-bind P ports.fetch_event_status _ k.event_status λ status.
          Keeps-bind P (ports.fetch_current_fixtures job.event_id) _
            (k.current_fixtures job.event_id)
            λ fixtures.
              Keeps-bind P (ports.fetch_event_live job.event_id) _ (k.event_live job.event_id)
                λ event_live. Keeps-lift P (
                  fetched_at_must_be_timezone_aware
                    (live_bundle job now status fixtures event_live))

    -- The deletion, with what has gone before.
    delete-Leads :
        (message : SqsMessage) (sent : S)
        → P sent
        → ((t : S)
            → ports.delete_message message.receipt_handle sent ≡ (ok tt, t)
            → Acknowledged message t)
        → Lands P (λ u. Acknowledged message) (ports.delete_message message.receipt_handle sent)
    delete-Leads message sent p done =
        after (ports.delete_message message.receipt_handle sent).0
          (ports.delete_message message.receipt_handle sent).1 refl
      where
        after :
            (r : Result (Unit {0})) (t : S)
            → ports.delete_message message.receipt_handle sent ≡ (r, t)
            → Lands P (λ u. Acknowledged message) (r, t)
        after (err e) t h =
            subst P (ap (λ (q : Result (Unit {0}) × S). q.1) h) (
              k.refuses message.receipt_handle sent e p (ap (λ (q : Result (Unit {0}) × S). q.0) h))
        after (ok u) t h = done t h

    forward-Lands :
        (message : SqsMessage) (job : IngestionJob) (bundle : PayloadBundle) (uuid : String)
        (before stored : S)
        → libraries.read_job message.body ≡ ok job
        → P before
        → P stored
        → length (libraries.canonical_bundle_bytes bundle) ≤ max_collected_payload_bytes
        → ports.put_object settings.payload_bucket
            (payload_key settings ports libraries (job_kind job) (bundle_fetched_at bundle) uuid)
            (libraries.canonical_bundle_bytes bundle)
            before
          ≡ (ok tt, stored)
        → Lands P
            (λ u. Acknowledged message)
            (forward settings ports libraries message
              (new_message settings ports libraries job bundle uuid)
              stored)
    unfolding forward
    forward-Lands message job bundle uuid before stored was_job p q bounded upload =
        let m : CollectedPayloadMessage = new_message settings ports libraries job bundle uuid in
        Lands-lift P (λ u. Acknowledged message) (validate_message m) _ stored q
          λ valid passed.
            let same : m ≡ valid = validated m valid passed in
            Lands-called P (λ u. Acknowledged message) (ports.send_message valid) _ stored
              (k.sends valid) q
              λ v sent r publication. delete-Leads message sent r λ t deletion. record {
                job = job;
                bundle = bundle;
                uuid = uuid;
                before = before;
                stored = stored;
                sent = sent;
                was_job = was_job;
                undeleted = (p, q, r);
                bounded = bounded;
                upload = upload;
                valid = passed ∙ ap ok (sym same);
                publication =
                    subst
                      (λ (n : CollectedPayloadMessage). ports.send_message n stored ≡ (ok tt, sent))
                      (sym same) publication;
                deletion = deletion;
              }

    deliver-Leads :
        (message : SqsMessage) (job : IngestionJob) (bundle : PayloadBundle)
        → libraries.read_job message.body ≡ ok job
        → Leads P P
            (λ u. Acknowledged message)
            (deliver settings ports libraries message job bundle)
    unfolding deliver
    deliver-Leads message job bundle was_job =
        Leads-check P P (λ u. Acknowledged message)
          (ltb max_collected_payload_bytes (length (libraries.canonical_bundle_bytes bundle))) _ _
          (λ s p. p)
          λ bounded.
            Leads-after P (λ u. Acknowledged message) ports.uuid4 _ k.uuids
              λ uuid before p.
                Lands-called P (λ u. Acknowledged message)
                  (ports.put_object settings.payload_bucket
                    (payload_key settings ports libraries (job_kind job) (bundle_fetched_at bundle)
                      uuid)
                    (libraries.canonical_bundle_bytes bundle))
                  _ before
                  (k.puts settings.payload_bucket
                    (payload_key settings ports libraries (job_kind job) (bundle_fetched_at bundle)
                      uuid)
                    (libraries.canonical_bundle_bytes bundle))
                  p
                  λ u stored q upload.
                    forward-Lands message job bundle uuid before stored was_job p q
                      (ltb→le max_collected_payload_bytes
                        (length (libraries.canonical_bundle_bytes bundle)) bounded)
                      upload

    -- However the processing of a message ends, an invariant that every operation keeps but a deletion that
    -- returns: after a raise it holds; after a return, the last calls were, in this order and each of
    -- them returning, the upload of a bundle's canonical bytes for the job that the message holds, within the
    -- maximum size, the publication of the message with the key, the size and the digest of those bytes,
    -- and the deletion of the job, and the invariant held up to the deletion.
    pub process_message-Leads :
        (message : SqsMessage)
        → Leads P P (λ u. Acknowledged message) (process_message settings ports libraries message)
    unfolding process_message
    process_message-Leads message =
        Leads-lift P (λ u. Acknowledged message) (libraries.read_job message.body) _
          λ job was_job.
            Leads-after P (λ u. Acknowledged message) (collect settings ports libraries job) _
              (collect-Keeps job) λ bundle. deliver-Leads message job bundle was_job
