-- ===== src/Application/CommunityService/Published.antt =====
-- application/community_service.py: when a run inserts a report. The world is followed through every call
-- of a port up to the insertion.
use mathlib.Core.Path.{subst}
use fpl_data_relay.Prelude.{
  ℕ, ◌≡◌, refl, ap, ◌⊎◌, inl, inr, String, Option, none, some, List, string_key,
}
use fpl_data_relay.Result.{Result, ok, err}
use fpl_data_relay.Exec.{Lands, Leads, Leads-bind}
use fpl_data_relay.Domain.Time.{Datetime, utc}
use fpl_data_relay.Domain.Community.Double.{Double}
use fpl_data_relay.Domain.Community.Sources.{CommunityStrategyDefinition}
use fpl_data_relay.Domain.Community.Topics.{ModelUsage}
use fpl_data_relay.Domain.Community.Reports.{CommunityReport, CommunityReportDraft, ScoredCandidate}
use fpl_data_relay.Application.CommunityStrategies.{
  ConfiguredCommunityStrategy, require, extraction_instructions,
}
use fpl_data_relay.Application.CommunityJobs.{CommunityStrategyJob}
use fpl_data_relay.Application.CommunityService.Ports.{ReferenceBundle, Libraries, CommunityService}
use fpl_data_relay.Application.CommunityService.Collection.{load_references}
use fpl_data_relay.Application.CommunityService.Report.{
  Gathered, Extraction, report_parts, report_draft,
}
use fpl_data_relay.Application.CommunityService.Sound.{
  IsPublishable, report_parts-AreSound, report_draft-IsPublishable,
}
use fpl_data_relay.Exec.Calls.{Leads-lift, Leads-after}
use fpl_data_relay.Application.CommunityService.Calls.{load_references-Keeps}
use fpl_data_relay.Application.CommunityService.Phases.{
  OthersKeep, gather-Keeps, extract_documents-Keeps, synthesize_stories-Keeps,
}
use fpl_data_relay.Application.CommunityService.Stages.{check_job, values}
use fpl_data_relay.Application.CommunityService.{
  gather, extract_documents, synthesize_stories, publish, analyze, with_bundle, generate,
  unless_stored, run,
}

module _ {S W : Type 0} ⦃d : Double W⦄ (libraries : Libraries) (self : CommunityService S W)
    (P : S → Type 0) where
  -- A report that was inserted last, from a draft that may be inserted.
  abbrev pub Inserted :
      CommunityStrategyDefinition → CommunityStrategyJob → CommunityReport W → S → Type 0
  Inserted definition job report s =
      (r : CommunityReportDraft W) × (before : S) × P before
      × IsPublishable definition job r
      × (self.reports.insert_report r before ≡ (ok report, s))

  -- None is a run whose fuel is spent, and some is a report that was stored or is inserted.
  abbrev pub Outcome : CommunityStrategyJob → Option (CommunityReport W) → S → Type 0
  Outcome job none s = P s
  Outcome job (some report) s =
      ((before : S) × P before
        × (self.reports.get_report_for_date job.strategy_key job.report_date before
            ≡ (ok (some report), s)))
      ⊎ ((strategy : ConfiguredCommunityStrategy) × (require self.registry job.strategy_key
            ≡ ok strategy)
          × (check_job libraries.local_date strategy.definition job ≡ ok tt)
          × Inserted strategy.definition job report s)

  module _ (k : OthersKeep libraries self P) where
    insert-Leads :
        (definition : CommunityStrategyDefinition) (job : CommunityStrategyJob)
        (r : CommunityReportDraft W)
        → IsPublishable definition job r
        → Leads P P (Inserted definition job) (self.reports.insert_report r)
    insert-Leads definition job r sound s p =
        after (self.reports.insert_report r s).0 (self.reports.insert_report r s).1 refl
      where
        after :
            (result : Result (CommunityReport W)) (t : S)
            → self.reports.insert_report r s ≡ (result, t)
            → Lands P (Inserted definition job) (result, t)
        after (err e) t h =
            subst P (ap (λ (q : Result (CommunityReport W) × S). q.1) h)
              (k.refuses r s e p (ap (λ (q : Result (CommunityReport W) × S). q.0) h))
        after (ok report) t h = (r, s, p, sound, h)

    publish-Leads :
        (strategy : ConfiguredCommunityStrategy) (job : CommunityStrategyJob) (expired : ℕ)
        (g : Gathered) (extraction : Extraction) (synthesis : List (ScoredCandidate W) × ModelUsage)
        → Leads P P
            (Inserted strategy.definition job)
            (publish libraries self strategy job expired g extraction synthesis)
    unfolding publish
    publish-Leads strategy job expired g extraction synthesis =
        Leads-lift P (Inserted strategy.definition job)
          (report_parts strategy.definition.sources g extraction expired synthesis.0) _
          λ parts built.
            Leads-after P (Inserted strategy.definition job) self.clock _ k.reads_clock λ now.
              Leads-lift P (Inserted strategy.definition job)
                (report_draft strategy.definition job g.bundle parts extraction.usage synthesis.1
                  now)
                _
                λ r drafted. insert-Leads strategy.definition job r (
                  report_draft-IsPublishable strategy.definition job g.bundle synthesis.0 parts
                    extraction.usage synthesis.1 now r
                    (report_parts-AreSound strategy.definition.sources g extraction expired
                      synthesis.0 parts built)
                    drafted)

    analyze-Leads :
        (strategy : ConfiguredCommunityStrategy) (job : CommunityStrategyJob) (expired : ℕ)
        (as_of : Datetime) (bundle : ReferenceBundle)
        → Leads P P
            (Inserted strategy.definition job)
            (analyze libraries self strategy job expired as_of bundle)
    unfolding analyze
    analyze-Leads strategy job expired as_of bundle =
        Leads-after P (Inserted strategy.definition job)
          (gather libraries self strategy.definition job hash as_of bundle) _
          (gather-Keeps libraries self P k strategy.definition job hash as_of bundle)
          λ g.
            Leads-after P (Inserted strategy.definition job)
              (extract_documents libraries self strategy hash g (values g.materialized)) _
              (extract_documents-Keeps libraries self P k strategy hash g (values g.materialized))
              λ extraction.
                Leads-after P (Inserted strategy.definition job)
                  (synthesize_stories libraries self strategy job g extraction) _
                  (synthesize_stories-Keeps libraries self P k strategy job g extraction)
                  λ synthesis. publish-Leads strategy job expired g extraction synthesis
      where
        hash : String
        hash =
            libraries.contract_hash (extraction_instructions strategy) strategy.definition.model
              strategy.definition.reasoning_effort strategy.definition.chunk_characters

    generate-Leads :
        (fuel : ℕ) (strategy : ConfiguredCommunityStrategy) (job : CommunityStrategyJob)
        → require self.registry job.strategy_key ≡ ok strategy
        → check_job libraries.local_date strategy.definition job ≡ ok tt
        → Leads P P (Outcome job) (generate libraries self fuel strategy job)
    unfolding generate
    generate-Leads fuel strategy job found checked =
        Leads-after P (Outcome job) self.clock _ k.reads_clock λ now.
          Leads-after P (Outcome job) (self.extraction_cache.prune_expired (utc now.moment)) _
            (k.prunes (utc now.moment))
            λ expired.
              Leads-after P (Outcome job) (load_references self.references fuel) _
                (load_references-Keeps P self.references fuel k.in_references)
                λ bundle. with_one expired (utc now.moment) bundle
      where
        with_one :
            (expired : ℕ) (as_of : Datetime) (bundle : Option ReferenceBundle)
            → Leads P P (Outcome job) (
                with_bundle libraries self bundle
                  (analyze libraries self strategy job expired as_of))
        with_one expired as_of none = λ s p. p
        with_one expired as_of (some bundle) =
            Leads-bind P P (Inserted strategy.definition job) (Outcome job)
              (analyze libraries self strategy job expired as_of bundle) _
              (analyze-Leads strategy job expired as_of bundle)
              λ report s inserted. inr (strategy, found, checked, inserted)

    -- What reading a stored report gives.
    abbrev Read : CommunityStrategyJob → Option (CommunityReport W) → S → Type 0
    Read job stored s =
        P s
        × ((before : S) × P before
            × (self.reports.get_report_for_date job.strategy_key job.report_date before
                ≡ (ok stored, s)))

    Read-Leads :
        (job : CommunityStrategyJob)
        → Leads P P (Read job) (self.reports.get_report_for_date job.strategy_key job.report_date)
    Read-Leads job s p =
        after (self.reports.get_report_for_date job.strategy_key job.report_date s).0
          (self.reports.get_report_for_date job.strategy_key job.report_date s).1 refl
          (k.stored job.strategy_key job.report_date s p)
      where
        after :
            (result : Result (Option (CommunityReport W))) (t : S)
            → self.reports.get_report_for_date job.strategy_key job.report_date s ≡ (result, t)
            → P t
            → Lands P (Read job) (result, t)
        after (err e) t h q = q
        after (ok stored) t h q = (q, (s, p, h))

    finish-Leads :
        (fuel : ℕ) (strategy : ConfiguredCommunityStrategy) (job : CommunityStrategyJob)
        → require self.registry job.strategy_key ≡ ok strategy
        → check_job libraries.local_date strategy.definition job ≡ ok tt
        → (stored : Option (CommunityReport W))
        → Leads P
            (Read job stored)
            (Outcome job)
            (unless_stored libraries self stored (generate libraries self fuel strategy job))
    finish-Leads fuel strategy job found checked none s (p, r) =
        generate-Leads fuel strategy job found checked s p
    finish-Leads fuel strategy job found checked (some report) s (p, r) = inl r

    -- However a run ends, for any fuel, an invariant that every operation keeps but an insertion
    -- that returns: after a raise it holds; after a return of a report, either the
    -- report was stored for the strategy and the date, and reading it was the last call, or the
    -- job passes the checks of a registered strategy, and the last call is the one insertion,
    -- of a draft that carries the job's date and window, whose stories are at most the target and ten,
    -- ranked from 1, each with evidence and entities that do not repeat and a score that its
    -- components explain, with consistent counts of sources, exclusions, cache hits and writes.
    pub run-Leads :
        (fuel : ℕ) (job : CommunityStrategyJob)
        → Leads P P (Outcome job) (run libraries self fuel job)
    unfolding run
    run-Leads fuel job =
        Leads-lift P (Outcome job) (require self.registry job.strategy_key) _ λ strategy found.
          Leads-lift P (Outcome job) (check_job libraries.local_date strategy.definition job) _
            λ u checked.
              Leads-bind P P (Read job) (Outcome job)
                (self.reports.get_report_for_date job.strategy_key job.report_date) _
                (Read-Leads job) (λ stored. finish-Leads fuel strategy job found checked stored)
