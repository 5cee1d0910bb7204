-- ===== src/Application/CommunityService/Deduplicated.antt =====
-- application/community_service.py, `_deduplicate_discovered`: the whole loop and the order it returns.
use mathlib.Core.Path.{subst}
use fpl_data_relay.Prelude.{
  ◌∙◌, ◌≡◌, refl, arith, String, ◌||◌, List, [], ◌∷◌, ◌++◌, All, Pairwise, any-append, All-append,
  string_key, nat_key, ◌=?◌, inl, inr,
}
use fpl_data_relay.Prelude.Dict.{put-fresh}
use fpl_data_relay.Prelude.Sorting.{
  IsSorted, sort_by, sort_by-IsSorted, sort_by-Pairwise, any-sort_by, All-sort_by, by_key-IsOrder,
  by_nothing, by_nothing-IsOrder,
}
use fpl_data_relay.Result.{ok, >>=-inv}
use fpl_data_relay.Domain.Community.Documents.{DiscoveredDocument, about, SourceDiscoveryResult}
use fpl_data_relay.Application.CommunityService.Documents.{
  Discovered, Seen, native_key, same_native, see_document, see_documents, see_results,
  published_before, deduplicate_discovered,
}
use fpl_data_relay.Application.CommunityService.Unique.{
  AreApart, AreApart-swap, IsRepresented, IsConsistent, add, see_document-inv, any_or,
  add-IsConsistent,
}

IsRepresented-append :
    (d e : DiscoveredDocument) (items : Discovered) (item : String × DiscoveredDocument)
    → IsRepresented items e
    → IsRepresented (items ++ (item ∷ [])) e
IsRepresented-append d e items item h =
    rw
      (
        any-append
            (λ (i : String × DiscoveredDocument).
              same_native (native_key e) (native_key i.1) || (about i.1).url =? (about e).url)
            items (item ∷ []),
        h,
      )
      refl

-- From one state of the loop to a later one.
record Step (seen after : Seen) (ds : List DiscoveredDocument) : Type 0 where
  consistent : IsConsistent after
  kept : (e : DiscoveredDocument) → IsRepresented seen.documents e → IsRepresented after.documents e
  taken : All (IsRepresented after.documents) ds

see_document-Step :
    (seen after : Seen) (d : DiscoveredDocument)
    → IsConsistent seen
    → see_document seen d ≡ ok after
    → Step seen after (d ∷ [])
unfolding add
see_document-Step seen after d c h = elim (see_document-inv seen after d h) [
  | inl (repeated, same) ↦ rw same (record {
    consistent = c;
    kept = λ e r. r;
    taken = (
      rw
          (any_or (λ (i : String × DiscoveredDocument). same_native (native_key d) (native_key i.1))
            (λ (i : String × DiscoveredDocument). (about i.1).url =? (about d).url) seen.documents)
          (ground (arith, c.natives (native_key d), c.addresses (about d).url)),
      tt,
    );
  })
  | inr (repeated, absent, same) ↦ rw same (record {
    consistent = add-IsConsistent seen c d repeated absent;
    kept = λ e r.
        rw (put-fresh (about d).document_id d seen.documents absent)
          (IsRepresented-append d e seen.documents ((about d).document_id, d) r);
    taken = (
      rw
          (
            put-fresh (about d).document_id d seen.documents absent,
            any-append
                (λ (i : String × DiscoveredDocument).
                  same_native (native_key d) (native_key i.1) || (about i.1).url =? (about d).url)
                seen.documents (((about d).document_id, d) ∷ []),
          )
          (ground (arith, string_key.beq_iff (about d).url (about d).url)),
      tt,
    );
  })
]

All-kept :
    (seen after : Seen) (ds : List DiscoveredDocument)
    → ((e : DiscoveredDocument) → IsRepresented seen.documents e → IsRepresented after.documents e)
    → All (IsRepresented seen.documents) ds
    → All (IsRepresented after.documents) ds
All-kept seen after [] k h = tt
All-kept seen after (d ∷ ds) k h = (k d h.0, All-kept seen after ds k h.1)

Step-trans :
    (seen between after : Seen) (ds es : List DiscoveredDocument)
    → Step seen between ds
    → Step between after es
    → Step seen after (ds ++ es)
Step-trans seen between after ds es p q = record {
  consistent = q.consistent;
  kept = λ e r. q.kept e (p.kept e r);
  taken =
      All-append (IsRepresented after.documents) ds es (All-kept between after ds q.kept p.taken)
        q.taken;
}

see_documents-Step :
    (ds : List DiscoveredDocument) (seen after : Seen)
    → IsConsistent seen
    → see_documents ds seen ≡ ok after
    → Step seen after ds
unfolding see_documents
see_documents-Step [] seen after c h =
    let same : seen ≡ after = cc in
    subst (λ s. Step seen s []) same (record { consistent = c; kept = λ e r. r; taken = tt })
see_documents-Step (d ∷ ds) seen after c h =
    let (between, first, rest) = >>=-inv (see_document seen d) (see_documents ds) h in
    let step = see_document-Step seen between d c first in
    Step-trans seen between after (d ∷ []) ds step
      (see_documents-Step ds between after step.consistent rest)

-- The documents of all results.
abbrev pub all_documents : List SourceDiscoveryResult → List DiscoveredDocument
all_documents [] = []
all_documents (r ∷ rs) = r.documents ++ all_documents rs

see_results-Step :
    (rs : List SourceDiscoveryResult) (seen after : Seen)
    → IsConsistent seen
    → see_results rs seen ≡ ok after
    → Step seen after (all_documents rs)
unfolding see_results
see_results-Step [] seen after c h =
    let same : seen ≡ after = cc in
    subst (λ s. Step seen s []) same (record { consistent = c; kept = λ e r. r; taken = tt })
see_results-Step (r ∷ rs) seen after c h =
    let (between, first, rest) = >>=-inv (see_documents r.documents seen) (see_results rs) h in
    let step = see_documents-Step r.documents seen between c first in
    Step-trans seen between after r.documents (all_documents rs) step
      (see_results-Step rs between after step.consistent rest)

All-IsRepresented :
    (items : Discovered) (ds : List DiscoveredDocument)
    → All (IsRepresented items) ds
    → All (IsRepresented (sort_by published_before items)) ds
All-IsRepresented items [] h = tt
All-IsRepresented items (d ∷ ds) h = (
  any-sort_by published_before
        (λ i. same_native (native_key d) (native_key i.1) || (about i.1).url =? (about d).url) items
      ∙ h.0,
  All-IsRepresented items ds h.1,
)

-- Where the deduplication returns: no two documents share their id, their source's own id or their address,
-- each stands under its id, they stand in the order of publication and then of id, and for each
-- document that the sources returned, one of the same own id or address is there.
pub deduplicate_discovered_once :
    (results : List SourceDiscoveryResult) (discovered : Discovered)
    → deduplicate_discovered results ≡ ok discovered
    → Pairwise AreApart discovered
      × All (λ item. (about item.1).document_id ≡ item.0) discovered
      × IsSorted published_before discovered
      × All (IsRepresented discovered) (all_documents results)
unfolding deduplicate_discovered
deduplicate_discovered_once results discovered h =
    let start : Seen = record { documents = []; native_ids = []; urls = [] } in
    let (seen, read, done) = >>=-inv (see_results results start) _ h in
    let step =
      see_results-Step results start seen
        (record { natives = λ q. refl; addresses = λ u. refl; apart = tt; named = tt }) read in
    let order =
      by_key-IsOrder (λ (i : String × DiscoveredDocument). (about i.1).published_at.moment) _
        (by_key-IsOrder (λ (i : String × DiscoveredDocument). i.0) by_nothing by_nothing-IsOrder) in
    let same : sort_by published_before seen.documents ≡ discovered = cc in
    rw (← same) (
      sort_by-Pairwise published_before AreApart AreApart-swap seen.documents step.consistent.apart,
      All-sort_by published_before (λ i. (about i.1).document_id ≡ i.0) seen.documents
          step.consistent.named,
      sort_by-IsSorted published_before order seen.documents,
      All-IsRepresented seen.documents (all_documents results) step.taken,
    )
